-- ===== src/Rsysd/Fsm/Transitions.antt =====
-- Every transition of `rsysd_shell_fsm`: the links, and the account of the commands.
use win_pdip.Prelude.{ℕ, ◌+◌, ◌≡◌, refl, sym, subst, Bool, true, false, Bytes, arith}
use win_pdip.Recv.{Code, found, timeout, received, failure}
use win_pdip.Rsysd.Fsm.{
  State, free, allocated, wait_eoc, wait_status, freeing, Event, evt_link, evt_cmd, evt_data,
  evt_client_dcnx, Link, Answers, Reaction, done, aborted, require, is_allocated, delete_client,
  submit, text_of, data_in_wait_eoc, data_in_wait_status, data_in_freeing, disconnect, shell_fsm,
  react,
}
use win_pdip.Rsysd.Fsm.Linked.{
  waits, serves, IsLinked, one_if, accepted, abandoned, expected, Answered, Ends, Reacted, Busy,
  Left, submit-Left,
}
use win_pdip.Rsysd.Fsm.Answering.{data_in_wait_eoc-Left, data_in_wait_status-Left, serving-Busy}

ignored-Reacted :
    {a : Answers} {l : Link} (s : State) (e : Event)
    → IsLinked l
    → expected s e ≡ false
    → accepted s e ≡ 0
    → abandoned s e ≡ 0
    → Reacted a l s e false l
ignored-Reacted s e v h a b = record {
  code = rw h refl;
  linked = v;
  owed = rw (a, b) refl;
  lost = omega arith;
  ignored = λ _. refl;
}

Left-Reacted :
    {a : Answers} {l : Link} (s : State) (e : Event) (ok : Bool) (m : Link)
    → expected s e ≡ true
    → abandoned s e ≡ 0
    → one_if (waits l.state) + accepted s e ≡ 1
    → Left a l 1 ok m
    → Reacted a l s e ok m
Left-Reacted s e ok m h b c left = record {
  code = rw (h, left.code) refl;
  linked = left.linked;
  owed = omega (arith, left.owed);
  lost = left.lost;
  ignored = λ f. ground (arith, left.code);
}

owed_dcnx :
    (s : State)
    → (accepted s evt_client_dcnx ≡ 0) × (abandoned s evt_client_dcnx ≡ one_if (waits s))
owed_dcnx free = (refl, refl)
owed_dcnx allocated = (refl, refl)
owed_dcnx wait_eoc = (refl, refl)
owed_dcnx wait_status = (refl, refl)
owed_dcnx freeing = (refl, refl)

disconnect-Reacted :
    (atoi : Bytes → ℕ) (a : Answers) {l : Link} (s t : State)
    → Busy l l
    → l.state ≡ s
    → expected s evt_client_dcnx ≡ true
    → waits t ≡ false
    → serves t ≡ false
    → Ends (Reacted a l s evt_client_dcnx) (disconnect atoi t l)
unfolding delete_client
disconnect-Reacted atoi a {l} s t b h x w v =
    rw (b.client, b.alive)
      (record {
        code = rw x refl;
        linked = record { client = rw v refl; shell = rw v refl; alive = λ k. ground arith };
        owed = rw (w, (owed_dcnx s).0, (owed_dcnx s).1, h) (omega arith);
        lost = omega arith;
        ignored = λ k. ground arith;
      })

entered_free :
    {a : Answers} {l : Link}
    → IsLinked l
    → l.state ≡ freeing
    → Reacted a l freeing evt_data true (record l { state = free })
entered_free v h = record {
  code = refl;
  linked = record { client = rw (v.client, h) refl; shell = rw (v.shell, h) refl; alive = v.alive };
  owed = rw h refl;
  lost = omega arith;
  ignored = λ f. ground arith;
}

still_freeing :
    {a : Answers} {l : Link} (e : Event)
    → IsLinked l
    → expected freeing e ≡ true
    → Reacted a l freeing e true l
still_freeing evt_data v h = record {
  code = refl;
  linked = v;
  owed = refl;
  lost = omega arith;
  ignored = λ f. refl;
}
still_freeing evt_client_dcnx v h = record {
  code = refl;
  linked = v;
  owed = refl;
  lost = omega arith;
  ignored = λ f. refl;
}
still_freeing evt_link v h = record {
  code = sym h;
  linked = v;
  owed = refl;
  lost = omega arith;
  ignored = λ f. refl;
}
still_freeing evt_cmd v h = record {
  code = sym h;
  linked = v;
  owed = refl;
  lost = omega arith;
  ignored = λ f. refl;
}

freeing-Reacted :
    (atoi : Bytes → ℕ) (a : Answers) {l : Link} (rc : Code)
    → IsLinked l
    → l.state ≡ freeing
    → Ends (Reacted a l freeing evt_data) (data_in_freeing atoi rc l)
unfolding data_in_freeing
freeing-Reacted atoi a found v h = entered_free v h
freeing-Reacted atoi a received v h = still_freeing evt_data v refl
freeing-Reacted atoi a timeout v h = entered_free v h
freeing-Reacted atoi a failure v h = entered_free v h

-- What the caller of the state machine sees to: a client that is linked is not deleted.
abbrev pub Allowed : Event → Answers → Link → Type 0
Allowed evt_link a l = is_allocated l.client_state ≡ true
Allowed evt_data a l = Answered l.state a
Allowed _ a l = Unit

Ends-mono :
    {A : Type 0} {P Q : A → Link → Type 0} (r : Reaction A)
    → Ends P r
    → ((a : A) (l : Link) → P a l → Q a l)
    → Ends Q r
Ends-mono (done a l) h k = k a l h
Ends-mono aborted h k = h

Ends-require :
    {A : Type 0} (P : A → Link → Type 0) (t : Bool) (r : Reaction A)
    → t ≡ true
    → Ends P r
    → Ends P (require t r)
Ends-require P true r e h = h
Ends-require P false r e h = ground arith

command-Reacted :
    (a : Answers) {l : Link}
    → Busy l l
    → l.state ≡ allocated
    → Ends (Reacted a l allocated evt_cmd) (submit a (text_of a l.cmd) wait_eoc l)
command-Reacted a {l} b h =
    Ends-mono {P = Left a l 1} {Q = Reacted a l allocated evt_cmd}
      (submit a (text_of a l.cmd) wait_eoc l) (submit-Left a (text_of a l.cmd) wait_eoc b refl refl)
      (λ ok m left. Left-Reacted allocated evt_cmd ok m refl refl (rw h refl) left)

at_state :
    (atoi : Bytes → ℕ) (s : State) (e : Event) (a : Answers) (l : Link)
    → l.state ≡ s
    → IsLinked l
    → Allowed e a l
    → Ends (Reacted a l s e) (shell_fsm atoi s e a l)
unfolding shell_fsm
at_state atoi free evt_link a l h v k = record {
  code = refl;
  linked = record { client = refl; shell = refl; alive = λ _. k };
  owed = rw h refl;
  lost = omega arith;
  ignored = λ f. ground arith;
}
at_state atoi allocated evt_cmd a l h v k =
    Ends-require (Reacted a l allocated evt_cmd) l.has_client
      (submit a (text_of a l.cmd) wait_eoc l) (serving-Busy v (rw h refl)).client
      (command-Reacted a (serving-Busy v (rw h refl)) h)
at_state atoi allocated evt_client_dcnx a l h v k =
    disconnect-Reacted atoi a allocated free (serving-Busy v (rw h refl)) h refl refl refl
at_state atoi wait_eoc evt_data a l h v k =
    Ends-mono {P = Left a l 1} {Q = Reacted a l wait_eoc evt_data} (data_in_wait_eoc atoi a l)
      (data_in_wait_eoc-Left atoi a (serving-Busy v (rw h refl)) h)
      (λ ok m left. Left-Reacted wait_eoc evt_data ok m refl refl (rw h refl) left)
at_state atoi wait_eoc evt_client_dcnx a l h v k =
    disconnect-Reacted atoi a wait_eoc freeing (serving-Busy v (rw h refl)) h refl refl refl
at_state atoi wait_status evt_data a l h v k =
    Ends-mono {P = Left a l 1} {Q = Reacted a l wait_status evt_data} (data_in_wait_status atoi a l)
      (data_in_wait_status-Left atoi a (serving-Busy v (rw h refl)) h
        (subst (λ s. Answered s a) h k))
      (λ ok m left. Left-Reacted wait_status evt_data ok m refl refl (rw h refl) left)
at_state atoi wait_status evt_client_dcnx a l h v k =
    disconnect-Reacted atoi a wait_status freeing (serving-Busy v (rw h refl)) h refl refl refl
at_state atoi freeing evt_data a l h v k = freeing-Reacted atoi a _ v h
at_state atoi freeing evt_client_dcnx a l h v k = still_freeing evt_client_dcnx v refl
at_state atoi free evt_cmd a l h v k = ignored-Reacted free evt_cmd v refl refl refl
at_state atoi free evt_data a l h v k = ignored-Reacted free evt_data v refl refl refl
at_state atoi free evt_client_dcnx a l h v k = ignored-Reacted free evt_client_dcnx v refl refl refl
at_state atoi allocated evt_link a l h v k = ignored-Reacted allocated evt_link v refl refl refl
at_state atoi allocated evt_data a l h v k = ignored-Reacted allocated evt_data v refl refl refl
at_state atoi wait_eoc evt_link a l h v k = ignored-Reacted wait_eoc evt_link v refl refl refl
at_state atoi wait_eoc evt_cmd a l h v k = ignored-Reacted wait_eoc evt_cmd v refl refl refl
at_state atoi wait_status evt_link a l h v k = ignored-Reacted wait_status evt_link v refl refl refl
at_state atoi wait_status evt_cmd a l h v k = ignored-Reacted wait_status evt_cmd v refl refl refl
at_state atoi freeing evt_link a l h v k = ignored-Reacted freeing evt_link v refl refl refl
at_state atoi freeing evt_cmd a l h v k = ignored-Reacted freeing evt_cmd v refl refl refl

-- A call of rsysd_shell_fsm on a shell whose links agree with its state, where a client to link is
-- not deleted, and the data in RSYSD_STATE_WAIT_STATUS are, if they end in the prompt, the prompt
-- alone or behind two bytes or more (not behind a newline alone), and else not empty: no assertion
-- fails, the return code is -1 exactly if the event is not expected in the state and then nothing
-- changes, the links agree with the new state, and the number of ends of command written, lost and
-- owed changes by the command accepted and the one abandoned only, and an end is lost, one at
-- most, only where the write of rsys_send_eoc fails.
pub shell_fsm-Reacted :
    (atoi : Bytes → ℕ) (e : Event) (a : Answers) (l : Link)
    → IsLinked l
    → Allowed e a l
    → (ok : Bool) × (m : Link) × (react atoi e a l ≡ done ok m) × Reacted a l l.state e ok m
shell_fsm-Reacted atoi e a l v k = given (react atoi e a l) (at_state atoi l.state e a l refl v k)
  where
    given :
        (r : Reaction Bool)
        → Ends (Reacted a l l.state e) r
        → (ok : Bool) × (m : Link) × (r ≡ done ok m) × Reacted a l l.state e ok m
    given (done ok m) h = (ok, m, refl, h)
    given aborted h = absurd h
