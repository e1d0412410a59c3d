-- ===== src/Rsysd/Fsm/Deletion.antt =====
-- The state of the client that a shell serves: it is in use, or deleted.
use win_pdip.Prelude.{
  ℕ, ◌+◌, ◌-◌, ◌≡◌, refl, Bool, true, false, Bytes, length, get_or, take, ltb, ◌==◌, if◌then◌else◌,
}
use win_pdip.Recv.{Code, found, timeout, received, failure}
use win_pdip.Rsysd.Fsm.{
  State, free, allocated, wait_eoc, wait_status, freeing, Event, evt_link, evt_cmd, evt_data,
  evt_client_dcnx, Link, Answers, Reaction, done, aborted, ◌>>=◌, require, is_allocated, prompt_len,
  dummy_status, send_eoc, send_display, send_cmd, read_display_end, read_shell_display,
  flush_shell_display, delete_client, unlink_client, finish, enter, submit, echo_status, text_of,
  behind_display, behind_status, read_status, data_in_wait_eoc, data_in_wait_status,
  data_in_freeing, disconnect, shell_fsm, react,
}

-- The two states of a client
abbrev pub IsPlain : State → Type 0
IsPlain free = Unit
IsPlain allocated = Unit
IsPlain _ = ⊥

module _ (P : State → Type 0) where
  -- Where a call ends, the state of its client has the property.
  abbrev pub Yields : {A : Type 0} → Reaction A → Type 0
  Yields (done a l) = P l.client_state
  Yields aborted = Unit

  Yields-require : {A : Type 0} (t : Bool) (r : Reaction A) → Yields r → Yields (require t r)
  Yields-require true r h = h
  Yields-require false r h = tt

  Yields-if :
      {A : Type 0} (t : Bool) (r s : Reaction A) → Yields r → Yields s → Yields (if t then r else s)
  Yields-if true r s h k = h
  Yields-if false r s h k = k

  Yields->>= :
      {A B : Type 0} (r : Reaction A) (f : A → Link → Reaction B)
      → Yields r
      → ((a : A) (l : Link) → P l.client_state → Yields (f a l))
      → Yields (r >>= f)
  Yields->>= (done a l) f h k = k a l h
  Yields->>= aborted f h k = tt

  send_display-Yields :
      (a : Answers) (bs : Bytes) (l : Link) → P l.client_state → Yields (send_display a bs l)
  send_display-Yields a bs l h = Yields-require l.has_client _ h

  finish-Yields :
      (a : Answers) (status : ℕ) (l : Link) → P l.client_state → Yields (finish a status l)
  unfolding finish unlink_client
  finish-Yields a status l h =
      Yields->>= (send_eoc a status l) _ (Yields-require l.has_client _ h) (λ _ m k.
        Yields->>= (unlink_client m) _
          (Yields-require m.has_client _ (Yields-require m.has_shell _ k)) (λ _ n q. q))

  submit-Yields :
      (a : Answers) (cmd : Bytes) (s : State) (l : Link)
      → P l.client_state
      → Yields (submit a cmd s l)
  unfolding send_cmd
  submit-Yields a cmd s l h =
      Yields->>= (send_cmd a cmd l) _
        (Yields-require l.has_client _ (Yields-require l.has_shell _ h))
        (λ ok m k.
          Yields-if ok (enter s m) (finish a dummy_status m) k (finish-Yields a dummy_status m k))

  display-Yields :
      (a : Answers) (bs : Bytes) (rc : Code) (l : Link)
      → P l.client_state
      → Yields (send_display a bs l >>= λ ok m. done (if ok then rc else failure) m)
  display-Yields a bs rc l h =
      Yields->>= (send_display a bs l) _ (send_display-Yields a bs l h) (λ ok m k. k)

  read_display_end-Yields :
      (a : Answers) (l : Link) → P l.client_state → Yields (read_display_end a l)
  unfolding read_display_end
  read_display_end-Yields a l h = Yields-if (ltb (length a.text) prompt_len) _ _ h (
      Yields-if (ltb 0 (length a.text - prompt_len)) _ _
        (Yields-if (get_or a.text (length a.text - prompt_len - 1) 0 == b'\n') _ _
          (display-Yields a (take (length a.text - prompt_len) a.text) found l h) h)
        h)

  read_shell_display-Yields :
      (a : Answers) (l : Link) → P l.client_state → Yields (read_shell_display a l)
  unfolding read_shell_display
  read_shell_display-Yields a l h = by_code a.code
    where
      by_code :
          (rc : Code)
          → Yields (elim rc as (λ _. Reaction Code) [
            | found ↦ read_display_end a l
            | received ↦
                if ltb 0 (length a.text)
                then (send_display a a.text l >>= λ ok m. done (if ok then received else failure) m)
                else done received l
            | _ ↦ done failure l
          ])
      by_code found = read_display_end-Yields a l h
      by_code received =
          Yields-if (ltb 0 (length a.text)) _ _ (display-Yields a a.text received l h) h
      by_code timeout = h
      by_code failure = h

  behind_display-Yields :
      (a : Answers) (rc : Code) (l : Link) → P l.client_state → Yields (behind_display a rc l)
  unfolding behind_display
  behind_display-Yields a found l h = submit-Yields a echo_status wait_status l h
  behind_display-Yields a received l h = h
  behind_display-Yields a timeout l h = finish-Yields a dummy_status l h
  behind_display-Yields a failure l h = finish-Yields a dummy_status l h

  behind_status-Yields :
      (a : Answers) (rc : Code) (l : Link) → P l.client_state → Yields (behind_status a rc l)
  unfolding behind_status
  behind_status-Yields a found l h = finish-Yields a l.status l h
  behind_status-Yields a received l h = h
  behind_status-Yields a timeout l h = finish-Yields a dummy_status l h
  behind_status-Yields a failure l h = finish-Yields a dummy_status l h

  module _ (atoi : Bytes → ℕ) where
    read_status-Yields :
        (text : Bytes) (rc : Code) (l : Link)
        → P l.client_state
        → Yields (read_status atoi text rc l)
    unfolding read_status
    read_status-Yields text found l h =
        Yields-if (ltb (prompt_len + 1) (length text)) _ _
          (Yields-if (get_or text (length text - (prompt_len + 1)) 0 == b'\n') _ _ h h)
          (Yields-require (length text == prompt_len) _ h)
    read_status-Yields text received l h =
        Yields-require (ltb 0 (length text)) _
          (Yields-if (get_or text (length text - 1) 0 == b'\n') _ _ h h)
    read_status-Yields text timeout l h = h
    read_status-Yields text failure l h = h

    data_in_freeing-Yields :
        (rc : Code) (l : Link) → P l.client_state → Yields (data_in_freeing atoi rc l)
    unfolding data_in_freeing
    data_in_freeing-Yields found l h = h
    data_in_freeing-Yields received l h = h
    data_in_freeing-Yields timeout l h = h
    data_in_freeing-Yields failure l h = h

    disconnect-Yields : (s : State) (l : Link) → P free → Yields (disconnect atoi s l)
    unfolding delete_client
    disconnect-Yields s l g =
        Yields->>= (delete_client l) _
          (Yields-require l.has_client _ (Yields-require (is_allocated l.client_state) _ g))
          (λ _ m k. k)

    shell_fsm-Yields :
        (s : State) (e : Event) (a : Answers) (l : Link)
        → P l.client_state
        → (e ≡ evt_client_dcnx → P free)
        → Yields (shell_fsm atoi s e a l)
    unfolding shell_fsm data_in_wait_eoc data_in_wait_status
    shell_fsm-Yields free evt_link a l h g = h
    shell_fsm-Yields free evt_cmd a l h g = h
    shell_fsm-Yields free evt_data a l h g = h
    shell_fsm-Yields free evt_client_dcnx a l h g = h
    shell_fsm-Yields allocated evt_link a l h g = h
    shell_fsm-Yields allocated evt_cmd a l h g =
        Yields-require l.has_client _ (submit-Yields a (text_of a l.cmd) wait_eoc l h)
    shell_fsm-Yields allocated evt_data a l h g = h
    shell_fsm-Yields allocated evt_client_dcnx a l h g = disconnect-Yields free l (g refl)
    shell_fsm-Yields wait_eoc evt_link a l h g = h
    shell_fsm-Yields wait_eoc evt_cmd a l h g = h
    shell_fsm-Yields wait_eoc evt_data a l h g =
        Yields->>= (read_shell_display a l) (behind_display a) (read_shell_display-Yields a l h)
          (behind_display-Yields a)
    shell_fsm-Yields wait_eoc evt_client_dcnx a l h g = disconnect-Yields freeing l (g refl)
    shell_fsm-Yields wait_status evt_link a l h g = h
    shell_fsm-Yields wait_status evt_cmd a l h g = h
    shell_fsm-Yields wait_status evt_data a l h g =
        Yields->>= (read_status atoi a.text a.code l) (behind_status a)
          (read_status-Yields a.text a.code l h) (behind_status-Yields a)
    shell_fsm-Yields wait_status evt_client_dcnx a l h g = disconnect-Yields freeing l (g refl)
    shell_fsm-Yields freeing evt_link a l h g = h
    shell_fsm-Yields freeing evt_cmd a l h g = h
    shell_fsm-Yields freeing evt_data a l h g = data_in_freeing-Yields (flush_shell_display a) l h
    shell_fsm-Yields freeing evt_client_dcnx a l h g = h

    -- A call of the state machine keeps a property of the client's state, which a deleted client has where
    -- the event is its disconnection.
    pub react-Yields :
        (e : Event) (a : Answers) (l : Link)
        → P l.client_state
        → (e ≡ evt_client_dcnx → P free)
        → Yields (react atoi e a l)
    react-Yields e a l h g = shell_fsm-Yields l.state e a l h g
