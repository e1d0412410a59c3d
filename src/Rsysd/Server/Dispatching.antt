-- ===== src/Rsysd/Server/Dispatching.antt =====
-- What follows the read of a client that is ready.
use win_pdip.Prelude.{
  ℕ, ◌≡◌, inl, inr, refl, sym, ap, subst, ◌∙◌, true, Option, none, some, Bytes, put, put_self,
  put_other,
}
use win_pdip.Rsysd.Fsm.{Link, free, Event, evt_cmd, evt_client_dcnx, Answers, is_allocated}
use win_pdip.Rsysd.Fsm.Transitions.{Allowed}
use win_pdip.Rsysd.Fsm.Deletion.{IsPlain}
use win_pdip.Rsysd.Server.{
  Client, Server, Outcome, done, aborted, ◌>>=◌, link_of, call_fsm, Input, ReadCode, rc_cmd,
  rc_error, rc_disconnected, rc_no_memory, read_client, delete_unlinked, dispatch,
  read_and_dispatch,
}
use win_pdip.Rsysd.Server.Wiring.{Wired, Ends, nat-cases}
use win_pdip.Rsysd.Server.Serving.{
  IsSized, Kept, allocated-IsPlain, InputDone, call_fsm-Kept, read_client-InputDone,
}

pub Ends->>= :
    {A B : Type 0} (P Q : Server → Type 0) (r : Outcome A) (f : A → Server → Outcome B)
    → Ends P r
    → ((a : A) (w : Server) → P w → Ends Q (f a w))
    → Ends Q (r >>= f)
Ends->>= P Q (done a w) f h k = k a w h
Ends->>= P Q aborted f h k = h

pub Ends-mono :
    {A : Type 0} (P Q : Server → Type 0) (r : Outcome A)
    → Ends P r
    → ((w : Server) → P w → Q w)
    → Ends Q r
Ends-mono P Q (done a w) h f = f w h
Ends-mono P Q aborted h f = h

pub Kept-trans : (c : ℕ) (w v u : Server) → Kept c w v → Kept c v u → Kept c w u
Kept-trans c w v u h k = record {
  wired = k.wired;
  clients = k.clients ∙ h.clients;
  nb_clients = k.nb_clients ∙ h.nb_clients;
  sized = k.sized;
  others = λ x o. k.others x o ∙ h.others x o;
  plain = k.plain;
}

-- A client in the place of one with the same pointer and the same state
pub with_client : ℕ → Client → Server → Server
with_client c k w = record w { client_at = put w.client_at c k }

pub with_client-Wired :
    (c : ℕ) (k : Client) (w : Server)
    → Wired w
    → k.state ≡ (w.client_at c).state
    → k.shell ≡ (w.client_at c).shell
    → Wired (with_client c k w)
unfolding with_client
with_client-Wired c k w v s p = record {
  forth = λ j d e. shell d ∙ v.forth j d e;
  back = λ j d e. v.back j d (sym (shell d) ∙ e);
  served = v.served;
  alive = λ j d e. ap is_allocated (state d) ∙ v.alive j d (sym (shell d) ∙ e);
}
  where
    shell : (d : ℕ) → (put w.client_at c k d).shell ≡ (w.client_at d).shell
    shell d = elim (nat-cases d c) [
      | inl q ↦
          subst (λ x. (put w.client_at c k x).shell ≡ (w.client_at x).shell) (sym q)
            (ap (λ (x : Client). x.shell) (put_self w.client_at c k) ∙ p)
      | inr o ↦ ap (λ (x : Client). x.shell) (put_other w.client_at c k d o)
    ]

    state : (d : ℕ) → (put w.client_at c k d).state ≡ (w.client_at d).state
    state d = elim (nat-cases d c) [
      | inl q ↦
          subst (λ x. (put w.client_at c k x).state ≡ (w.client_at x).state) (sym q)
            (ap (λ (x : Client). x.state) (put_self w.client_at c k) ∙ s)
      | inr o ↦ ap (λ (x : Client). x.state) (put_other w.client_at c k d o)
    ]

-- A client with no shell that is deleted
pub delete_unlinked-Kept :
    (c : ℕ) (w : Server)
    → Wired w
    → IsSized (w.client_at c)
    → (w.client_at c).shell ≡ none
    → is_allocated (w.client_at c).state ≡ true
    → Ends (Kept c w) (delete_unlinked c w)
unfolding delete_unlinked
delete_unlinked-Kept c w v z idle live = rw live (record {
  wired = record {
    forth = λ j d e. shell d ∙ v.forth j d e;
    back = λ j d e. v.back j d (sym (shell d) ∙ e);
    served = v.served;
    alive = λ j d e. live_at j d (sym (shell d) ∙ e);
  };
  clients = refl;
  nb_clients = refl;
  sized = subst IsSized (sym (put_self w.client_at c deleted)) z;
  others = λ x o. put_other w.client_at c deleted x o;
  plain = subst (λ (x : Client). IsPlain x.state) (sym (put_self w.client_at c deleted)) tt;
})
  where
    deleted : Client
    deleted = record (w.client_at c) { state = free; shell = none }

    shell : (d : ℕ) → (put w.client_at c deleted d).shell ≡ (w.client_at d).shell
    shell d = elim (nat-cases d c) [
      | inl q ↦
          subst (λ x. (put w.client_at c deleted x).shell ≡ (w.client_at x).shell) (sym q)
            (ap (λ (x : Client). x.shell) (put_self w.client_at c deleted) ∙ sym idle)
      | inr o ↦ ap (λ (x : Client). x.shell) (put_other w.client_at c deleted d o)
    ]

    live_at :
        (j d : ℕ)
        → (w.client_at d).shell ≡ some j
        → is_allocated (put w.client_at c deleted d).state ≡ true
    live_at j d e = elim (nat-cases d c) [
      | inl q ↦ absurd (cc (e, ap (λ x. (w.client_at x).shell) q, idle))
      | inr o ↦
          ap (λ (x : Client). is_allocated x.state) (put_other w.client_at c deleted d o)
          ∙ v.alive j d e
    ]

-- The call of the state machine of the client's shell
pub own_shell-Kept :
    (atoi : Bytes → ℕ) (c i : ℕ) (e : Event) (a : Answers) (w : Server)
    → Wired w
    → IsSized (w.client_at c)
    → (w.client_at c).shell ≡ some i
    → ((l : Link) → Allowed e a l)
    → IsPlain (w.client_at c).state
    → Ends (Kept c w) (call_fsm atoi i e a (w.shells i).client w >>= λ _ u. done tt u)
own_shell-Kept atoi c i e a w v z linked allowed p =
    Ends->>= (Kept c w) (Kept c w) (call_fsm atoi i e a (w.shells i).client w) (λ _ u. done tt u)
      (subst (λ p. Ends (Kept c w) (call_fsm atoi i e a p w)) (sym (v.back i c linked))
        (call_fsm-Kept atoi i e a c w v (inl (v.back i c linked, linked)) (allowed (link_of i c w))
          z p))
      (λ _ u k. k)

pub dispatch-Kept :
    (atoi : Bytes → ℕ) (c : ℕ) (rc : ReadCode) (a : Answers) (p : Option ℕ) (w : Server)
    → Wired w
    → IsSized (w.client_at c)
    → is_allocated (w.client_at c).state ≡ true
    → (w.client_at c).shell ≡ p
    → Ends (Kept c w) (dispatch atoi c rc a p w)
unfolding dispatch
dispatch-Kept atoi c rc_cmd a (some i) w v z live e =
    own_shell-Kept atoi c i evt_cmd a w v z e (λ l. tt)
      (allocated-IsPlain (w.client_at c).state live)
dispatch-Kept atoi c rc_error a (some i) w v z live e =
    own_shell-Kept atoi c i evt_client_dcnx a w v z e (λ l. tt)
      (allocated-IsPlain (w.client_at c).state live)
dispatch-Kept atoi c rc_disconnected a (some i) w v z live e =
    own_shell-Kept atoi c i evt_client_dcnx a w v z e (λ l. tt)
      (allocated-IsPlain (w.client_at c).state live)
dispatch-Kept atoi c rc_no_memory a (some i) w v z live e =
    own_shell-Kept atoi c i evt_client_dcnx a w v z e (λ l. tt)
      (allocated-IsPlain (w.client_at c).state live)
dispatch-Kept atoi c rc_cmd a none w v z live e = record {
  wired = record { forth = v.forth; back = v.back; served = v.served; alive = v.alive };
  clients = refl;
  nb_clients = refl;
  sized = z;
  others = λ x o. refl;
  plain = allocated-IsPlain (w.client_at c).state live;
}
dispatch-Kept atoi c rc_error a none w v z live e = delete_unlinked-Kept c w v z e live
dispatch-Kept atoi c rc_disconnected a none w v z live e = delete_unlinked-Kept c w v z e live
dispatch-Kept atoi c rc_no_memory a none w v z live e = delete_unlinked-Kept c w v z e live

pub read_and_dispatch-Kept :
    (atoi : Bytes → ℕ) (c : ℕ) (i : Input) (a : Answers) (w : Server)
    → Wired w
    → IsSized (w.client_at c)
    → is_allocated (w.client_at c).state ≡ true
    → Ends (Kept c w) (read_and_dispatch atoi c i a w)
unfolding read_and_dispatch with_client
read_and_dispatch-Kept atoi c i a w v z live =
    Ends-mono (Kept c (with_client c k w)) (Kept c w) _
      (dispatch-Kept atoi c (read_client i (w.client_at c)).0 a k.shell (with_client c k w)
        (with_client-Wired c k w v r.same_state r.same_shell)
        (subst IsSized (sym (put_self w.client_at c k)) r.still_sized)
        (ap (λ (x : Client). is_allocated x.state) (put_self w.client_at c k)
          ∙ ap is_allocated r.same_state
          ∙ live)
        (ap (λ (x : Client). x.shell) (put_self w.client_at c k)))
      (λ u h. record {
        wired = h.wired;
        clients = h.clients;
        nb_clients = h.nb_clients;
        sized = h.sized;
        others = λ x o. h.others x o ∙ put_other w.client_at c k x o;
        plain = h.plain;
      })
  where
    k : Client
    k = (read_client i (w.client_at c)).1

    r : InputDone (w.client_at c) (read_client i (w.client_at c)).1
    r = read_client-InputDone i (w.client_at c) z
