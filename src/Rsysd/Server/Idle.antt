-- ===== src/Rsysd/Server/Idle.antt =====
-- A shell that is ready, with a client or with none.
use win_pdip.Prelude.{
  ℕ, ◌≡◌, inl, inr, refl, sym, ap, subst, ◌∙◌, Bool, true, false, not, none, Bytes, Option-cases,
  put_other,
}
use win_pdip.Rsysd.Fsm.{
  Link, State, free, allocated, wait_eoc, wait_status, freeing, evt_data, Answers, Reaction,
  shell_fsm, data_in_freeing, flush_shell_display,
}
use win_pdip.Recv.{Code, found, timeout, received, failure}
use win_pdip.Rsysd.Fsm.Linked.{serves, Answered}
use win_pdip.Rsysd.Server.{
  Shell, Server, is_null, alone, with_shell, after_alone, call_fsm, serve_shell,
}
use win_pdip.Rsysd.Server.Wiring.{Wired, nat-cases, at_self, Ends, call_fsm-Wired}

-- Data from a shell with no client
data_alone :
    (atoi : Bytes → ℕ) (a : Answers) (l : Link) (s : State)
    → l.state ≡ s
    → serves s ≡ false
    → (ok : Bool) × (m : Link) × (shell_fsm atoi s evt_data a l ≡ Reaction.done ok m)
      × (serves m.state ≡ false)
unfolding shell_fsm
data_alone atoi a l free e h = (false, l, refl, ap serves e)
data_alone atoi a l allocated e h = absurd (cc h)
data_alone atoi a l wait_eoc e h = absurd (cc h)
data_alone atoi a l wait_status e h = absurd (cc h)
data_alone atoi a l freeing e h = flushed (flush_shell_display a)
  where
    flushed :
        (rc : Code)
        → (ok : Bool) × (m : Link) × (data_in_freeing atoi rc l ≡ Reaction.done ok m)
          × (serves m.state ≡ false)
    flushed received = unfold data_in_freeing in (true, l, refl, ap serves e)
    flushed found = unfold data_in_freeing in (true, record l { state = free }, refl, refl)
    flushed timeout = unfold data_in_freeing in (true, record l { state = free }, refl, refl)
    flushed failure = unfold data_in_freeing in (true, record l { state = free }, refl, refl)

with_shell-Wired :
    (i : ℕ) (m : Link) (w : Server)
    → Wired w
    → (w.shells i).client ≡ none
    → serves m.state ≡ false
    → Wired (with_shell i m w)
with_shell-Wired i m w v k h = record {
  forth = λ j d e. v.forth j d (sym (pointers j) ∙ e);
  back = λ j d e. pointers j ∙ v.back j d e;
  served = λ j. elim (nat-cases j i) [
    | inl q ↦
        ap (λ (x : Shell). not (is_null x.client)) (at_self w.shells i _ j q)
        ∙ sym h
        ∙ ap (λ (x : Shell). serves x.state) (sym (at_self w.shells i _ j q))
    | inr o ↦
        subst (λ (x : Shell). not (is_null x.client) ≡ serves x.state)
          (sym (put_other w.shells i _ j o)) (v.served j)
  ];
  alive = v.alive;
}
  where
    pointers : (j : ℕ) → ((with_shell i m w).shells j).client ≡ (w.shells j).client
    pointers j = elim (nat-cases j i) [
      | inl q ↦
          ap (λ (x : Shell). x.client) (at_self w.shells i _ j q)
          ∙ sym k
          ∙ ap (λ x. (w.shells x).client) (sym q)
      | inr o ↦ ap (λ (x : Shell). x.client) (put_other w.shells i _ j o)
    ]

-- A shell that is ready: the call of the state machine asserts nothing wrong, and the wiring stays.
pub serve_shell-Wired :
    (atoi : Bytes → ℕ) (i : ℕ) (a : Answers) (w : Server)
    → Wired w
    → Answered (w.shells i).state a
    → Ends Wired (serve_shell atoi i a w)
unfolding serve_shell
serve_shell-Wired atoi i a w v h = elim (Option-cases (w.shells i).client) [
  | inl e ↦ rw e (alone_ends e)
  | inr (c, e) ↦ rw e (call_fsm-Wired atoi i evt_data a c w v (inl (e, v.forth i c e)) h)
]
  where
    alone_ends : (w.shells i).client ≡ none → Ends Wired (call_fsm atoi i evt_data a none w)
    alone_ends e =
        let (ok, m, eq, idle) =
          data_alone atoi a (alone i w) (w.shells i).state refl
            (sym (v.served i) ∙ ap (λ p. not (is_null p)) e) in
        unfold call_fsm in
        subst (λ x. Ends Wired (after_alone i w x)) (sym eq) (with_shell-Wired i m w v e idle)
