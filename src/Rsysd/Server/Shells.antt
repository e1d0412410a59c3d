-- ===== src/Rsysd/Server/Shells.antt =====
-- What the loop over the shells keeps.
use win_pdip.Prelude.{
  ◌≢◌, ◌≤◌, ℕ, zero, suc, ◌+◌, ◌-◌, ◌≡◌, inl, inr, refl, sym, ap, subst, ◌∙◌, Bool, true, Bytes,
  ltb, Bool-cases, Option-cases, if◌then◌else◌, put_self, put_other, arith,
}
use win_pdip.Rsysd.Fsm.{State, evt_data, Answers, Reaction, is_allocated, react}
use win_pdip.Rsysd.Fsm.Linked.{Answered}
use win_pdip.Rsysd.Fsm.Deletion.{Yields, react-Yields}
use win_pdip.Rsysd.Server.{
  Shell, Client, Server, link_of, with_link, alone, after_link, after_alone, call_fsm, serve_shell,
}
use win_pdip.Rsysd.Server.Wiring.{Wired, Ends, nat-cases}
use win_pdip.Rsysd.Server.Idle.{serve_shell-Wired}
use win_pdip.Rsysd.Server.Serving.{IsSized}
use win_pdip.Rsysd.Server.Loop.{Ready, serve_shells}
use win_pdip.Rsysd.Server.Clients.{Sound, Gives, Gives->>=}

-- The step for a shell leaves the list of the clients alone, and the other shells.
abbrev Answering : ℕ → Server → Server → Type 0
Answering i w v =
    Sound v
    × (v.clients ≡ w.clients)
    × (v.nb_shells ≡ w.nb_shells)
    × ((j : ℕ) → j ≢ i → v.shells j ≡ w.shells j)

alone-Answering :
    (i : ℕ) (w : Server) (r : Reaction Bool)
    → Sound w
    → Ends Wired (after_alone i w r)
    → Gives (λ ok v. Answering i w v) (after_alone i w r)
alone-Answering i w (Reaction.done ok l) s h = (
  record { wired = h; counted = s.counted; distinct = s.distinct; live = s.live; sized = s.sized },
  refl,
  refl,
  λ j h. put_other w.shells i _ j h,
)
alone-Answering i w Reaction.aborted s h = h

-- The client of the shell is still in use.
IsUsed : State → Type 0
IsUsed t = is_allocated t ≡ true

link-Answering :
    (i c : ℕ) (w : Server) (r : Reaction Bool)
    → Sound w
    → Yields IsUsed r
    → Ends Wired (after_link i c w r)
    → Gives (λ ok v. Answering i w v) (after_link i c w r)
unfolding IsUsed
link-Answering i c w (Reaction.done ok l) s y h = (
  record {
    wired = h;
    counted = s.counted;
    distinct = s.distinct;
    live = λ x k. elim (nat-cases x c) [
      | inl q ↦
          subst (λ z. is_allocated ((with_link i c l w).client_at z).state ≡ true) (sym q)
            (ap (λ (k : Client). is_allocated k.state) (put_self w.client_at c _) ∙ y)
      | inr o ↦
          ap (λ (k : Client). is_allocated k.state) (put_other w.client_at c _ x o) ∙ s.live x k
    ];
    sized = λ x k. elim (nat-cases x c) [
      | inl q ↦
          subst (λ z. IsSized ((with_link i c l w).client_at z)) (sym q)
            (subst IsSized (sym (put_self w.client_at c _))
              (subst (λ z. IsSized (w.client_at z)) q (s.sized x k)))
      | inr o ↦ subst IsSized (sym (put_other w.client_at c _ x o)) (s.sized x k)
    ];
  },
  refl,
  refl,
  λ j h. put_other w.shells i _ j h,
)
link-Answering i c w Reaction.aborted s y h = h

serve_shell-Answering :
    (atoi : Bytes → ℕ) (i : ℕ) (a : Answers) (w : Server)
    → Sound w
    → Answered (w.shells i).state a
    → Gives (λ ok v. Answering i w v) (serve_shell atoi i a w)
unfolding serve_shell call_fsm IsUsed
serve_shell-Answering atoi i a w s h = elim (Option-cases (w.shells i).client) [
  | inl e ↦ rw e (
      alone-Answering i w (react atoi evt_data a (alone i w)) s (
        subst (λ p. Ends Wired (call_fsm atoi i evt_data a p w)) e
          (serve_shell-Wired atoi i a w s.wired h)))
  | inr (c, e) ↦ rw e (
      link-Answering i c w (react atoi evt_data a (link_of i c w)) s
        (react-Yields IsUsed atoi evt_data a (link_of i c w)
          (s.wired.alive i c (s.wired.forth i c e)) (λ q. absurd (cc q)))
        (subst (λ p. Ends Wired (call_fsm atoi i evt_data a p w)) e
          (serve_shell-Wired atoi i a w s.wired h)))
]

-- How many of `n` shells from index `i` on are ready
abbrev pub count_shells : (ℕ → Bool) → ℕ → ℕ → ℕ
count_shells is_ready zero i = 0
count_shells is_ready (suc n) i =
    let later = count_shells is_ready n (i + 1) in if is_ready i then later + 1 else later

-- What `pdip_recv` gives for the shells from index `i` on is what their states rely on.
abbrev WholeFrom : ℕ → Ready → Server → Type 0
WholeFrom i r w = (j : ℕ) → i ≤ j → Answered (w.shells j).state (r.shell_answers j)

abbrev pub AllWhole : Ready → Server → Type 0
AllWhole r w = (j : ℕ) → Answered (w.shells j).state (r.shell_answers j)

-- The shells that are not served yet are as before.
later-WholeFrom :
    (i : ℕ) (r : Ready) (w v : Server)
    → ((j : ℕ) → j ≢ i → v.shells j ≡ w.shells j)
    → WholeFrom i r w
    → WholeFrom (i + 1) r v
later-WholeFrom i r w v same a j h =
    subst (λ (x : Shell). Answered x.state (r.shell_answers j))
      (sym (same j (λ e. absurd (omega (arith, e, h))))) (a j (omega arith))

shells_from-Sound :
    (atoi : Bytes → ℕ) (r : Ready) (n i nb rest : ℕ) (w : Server)
    → Sound w
    → WholeFrom i r w
    → nb ≡ count_shells r.shells n i + rest
    → Gives (λ m v. (m ≡ rest) × Sound v × (v.clients ≡ w.clients)) (serve_shells atoi r n i nb w)
unfolding serve_shells
shells_from-Sound atoi r zero i nb rest w s a e = (omega arith, s, refl)
shells_from-Sound atoi r (suc n) i nb rest w s a e = elim (Bool-cases (ltb 0 nb)) [
  | inr none_ready ↦ rw none_ready (ground arith, s, refl)
  | inl some_ready ↦ elim (Bool-cases (r.shells i)) [
    | inr passed ↦
        rw (some_ready, passed)
          (shells_from-Sound atoi r n (i + 1) nb rest w s (λ j h. a j (omega (arith, h)))
            (ground arith))
    | inl served ↦
        rw (some_ready, served)
          (Gives->>= (λ ok v. Answering i w v)
            (λ m v. (m ≡ rest) × Sound v × (v.clients ≡ w.clients)) _
            (λ _ v. serve_shells atoi r n (i + 1) (nb - 1) v)
            (serve_shell-Answering atoi i (r.shell_answers i) w s (a i (omega arith)))
            (λ ok v t.
              subst
                (λ cs.
                  Gives (λ m u. (m ≡ rest) × Sound u × (u.clients ≡ cs))
                    (serve_shells atoi r n (i + 1) (nb - 1) v))
                t.1
                (shells_from-Sound atoi r n (i + 1) (nb - 1) rest v t.0
                  (later-WholeFrom i r w v t.3 a) (ground arith))))
  ]
]

pub serve_shells-Sound :
    (atoi : Bytes → ℕ) (r : Ready) (n nb rest : ℕ) (w : Server)
    → Sound w
    → AllWhole r w
    → nb ≡ count_shells r.shells n 0 + rest
    → Gives (λ m v. (m ≡ rest) × Sound v × (v.clients ≡ w.clients)) (serve_shells atoi r n 0 nb w)
serve_shells-Sound atoi r n nb rest w s a e =
    shells_from-Sound atoi r n 0 nb rest w s (λ j h. a j) e
