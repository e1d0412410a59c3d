-- ===== src/Rsysd/Server/Rounds.antt =====
-- What a round of the select loop keeps, and that its assertions hold.
use win_pdip.Prelude.{
  ℕ, ◌+◌, ◌-◌, ◌≡◌, ◌⊎◌, inl, inr, refl, sym, ap, subst, ◌∙◌, true, false, Option, none, some, List,
  [], ◌∷◌, Bytes, Bool-cases, Option-cases, if◌then◌else◌, put, put_self, put_other, arith,
}
use win_pdip.Objects.Links.{Fresh}
use win_pdip.Rsysd.Fsm.{allocated, is_allocated}
use win_pdip.Rsysd.Server.{Client, Server, ◌>>=◌, new_client, connect}
use win_pdip.Rsysd.Server.Wiring.{Wired, nat-cases}
use win_pdip.Rsysd.Server.Serving.{IsSized}
use win_pdip.Rsysd.Server.Answering.{In}
use win_pdip.Rsysd.Server.Loop.{
  Ready, SelectReply, interrupted, failed, ready, serve_clients, none_left, serve_all, serve_ready,
  round,
}
use win_pdip.Rsysd.Server.Clients.{Sound, Gives, Gives->>=, count, serve_clients-Sound}
use win_pdip.Rsysd.Server.Shells.{count_shells, AllWhole, serve_shells-Sound}

-- A new client at an address that is not in use
connect-Wired :
    (c sd : ℕ) (w : Server) → Wired w → (w.client_at c).shell ≡ none → Wired (new_client c sd w)
unfolding new_client
connect-Wired c sd w v idle = record {
  forth = λ j d e. shell d ∙ v.forth j d e;
  back = λ j d e. v.back j d (sym (shell d) ∙ e);
  served = v.served;
  alive = λ j d e. live_at j d (sym (shell d) ∙ e);
}
  where
    fresh : Client
    fresh = record { state = allocated; sd = sd; shell = none; cmd = none; cmd_sz = 0; sent = [] }

    shell : (d : ℕ) → (put w.client_at c fresh d).shell ≡ (w.client_at d).shell
    shell d = elim (nat-cases d c) [
      | inl q ↦
          subst (λ x. (put w.client_at c fresh x).shell ≡ (w.client_at x).shell) (sym q)
            (ap (λ (x : Client). x.shell) (put_self w.client_at c fresh) ∙ sym idle)
      | inr o ↦ ap (λ (x : Client). x.shell) (put_other w.client_at c fresh d o)
    ]

    live_at :
        (j d : ℕ)
        → (w.client_at d).shell ≡ some j
        → is_allocated (put w.client_at c fresh d).state ≡ true
    live_at j d e = elim (nat-cases d c) [
      | inl q ↦ absurd (cc (e, ap (λ x. (w.client_at x).shell) q, idle))
      | inr o ↦
          ap (λ (x : Client). is_allocated x.state) (put_other w.client_at c fresh d o)
          ∙ v.alive j d e
    ]

absent-Fresh : (c : ℕ) (ds : List ℕ) → (In c ds → ⊥) → Fresh c ds
absent-Fresh c [] h = tt
absent-Fresh c (d ∷ ds) h = ((λ e. h (inl e)), absent-Fresh c ds (λ k. h (inr k)))

In-cons : (x c : ℕ) (ds : List ℕ) → In x (c ∷ ds) → (x ≡ c) ⊎ In x ds
In-cons x c ds h = h

connect-Sound :
    (c sd : ℕ) (w : Server)
    → Sound w
    → (In c w.clients → ⊥)
    → (w.client_at c).shell ≡ none
    → Sound (connect (some c) sd w)
unfolding connect new_client
connect-Sound c sd w s absent idle = record {
  wired = record {
    forth = wired.forth;
    back = wired.back;
    served = wired.served;
    alive = wired.alive;
  };
  counted = omega (arith, s.counted);
  distinct = (absent-Fresh c w.clients absent, s.distinct);
  live = λ x h. elim (nat-cases x c) [
    | inl q ↦
        subst (λ y. is_allocated ((new_client c sd w).client_at y).state ≡ true) (sym q)
          (ap (λ (k : Client). is_allocated k.state) (put_self w.client_at c _))
    | inr o ↦
        ap (λ (k : Client). is_allocated k.state) (put_other w.client_at c _ x o)
        ∙ s.live x (elim (In-cons x c w.clients h) [ inl e ↦ absurd (o e) | inr k ↦ k ])
  ];
  sized = λ x h. elim (nat-cases x c) [
    | inl q ↦
        subst (λ y. IsSized ((new_client c sd w).client_at y)) (sym q)
          (subst IsSized (sym (put_self w.client_at c _)) refl)
    | inr o ↦
        subst IsSized (sym (put_other w.client_at c _ x o))
          (s.sized x (elim (In-cons x c w.clients h) [ inl e ↦ absurd (o e) | inr k ↦ k ]))
  ];
}
  where
    wired : Wired (new_client c sd w)
    wired = connect-Wired c sd w s.wired idle

-- `select` counts the descriptors that are ready, the answers for the shells are what their states rely
-- on, and a new client
-- is at an address that is not in use and was not waited for.
pub record Documented (r : Ready) (w : Server) : Type 0 where
  pub number :
      r.nb_ready
      ≡ (if r.listening then 1 else 0)
        + (count_shells r.shells w.nb_shells 0 + count r.clients w.clients)
  pub whole : AllWhole r w
  pub unused :
      (c : ℕ)
      → r.memory ≡ some c
      → (In c w.clients → ⊥) × ((w.client_at c).shell ≡ none) × (r.clients c ≡ false)

serve_all-Sound :
    (atoi : Bytes → ℕ) (r : Ready) (nb : ℕ) (w : Server)
    → Sound w
    → AllWhole r w
    → nb ≡ count_shells r.shells w.nb_shells 0 + count r.clients w.clients
    → Gives (λ ok v. Sound v) (serve_all atoi r nb w)
unfolding serve_all
serve_all-Sound atoi r nb w s a e =
    Gives->>= (λ m v. (m ≡ count r.clients w.clients) × Sound v × (v.clients ≡ w.clients))
      (λ ok v. Sound v) _ (λ n v. serve_clients atoi r v.clients n v >>= none_left atoi r)
      (serve_shells-Sound atoi r w.nb_shells nb (count r.clients w.clients) w s a e)
      (λ m v t.
        Gives->>= (λ n u. (n ≡ 0) × Sound u) (λ ok u. Sound u) _ (none_left atoi r)
          (serve_clients-Sound atoi r v.clients m v t.1 t.1.distinct (λ x h. h)
            (t.0 ∙ ap (count r.clients) (sym t.2)))
          (λ n u k. subst (λ x. Gives (λ ok z. Sound z) (none_left atoi r x u)) (sym k.0) k.1))

accept-Sound :
    (atoi : Bytes → ℕ) (r : Ready) (sd : ℕ) (o : Option ℕ) (w : Server)
    → Sound w
    → Documented r w
    → r.listening ≡ true
    → r.memory ≡ o
    → Gives (λ ok v. Sound v) (serve_all atoi r (r.nb_ready - 1) (connect o sd w))
unfolding connect new_client
accept-Sound atoi r sd none w s d l e =
    serve_all-Sound atoi r (r.nb_ready - 1) (connect none sd w)
      (record {
        wired = record {
          forth = s.wired.forth;
          back = s.wired.back;
          served = s.wired.served;
          alive = s.wired.alive;
        };
        counted = s.counted;
        distinct = s.distinct;
        live = s.live;
        sized = s.sized;
      })
      d.whole (ground (arith, d.number))
accept-Sound atoi r sd (some c) w s d l e =
    let (absent, idle, quiet) = d.unused c e in
    serve_all-Sound atoi r (r.nb_ready - 1) (connect (some c) sd w)
      (connect-Sound c sd w s absent idle) d.whole (ground (arith, d.number))

serve_ready-Sound :
    (atoi : Bytes → ℕ) (r : Ready) (w : Server)
    → Sound w
    → Documented r w
    → Gives (λ ok v. Sound v) (serve_ready atoi r w)
unfolding serve_ready
serve_ready-Sound atoi r w s d = elim (Bool-cases r.listening) [
  | inr quiet ↦ rw quiet (serve_all-Sound atoi r r.nb_ready w s d.whole (ground (arith, d.number)))
  | inl l ↦ rw l (elim (Option-cases r.accepted) [
    | inl e ↦ rw e s
    | inr (sd, e) ↦ rw e (accept-Sound atoi r sd r.memory w s d l refl)
  ])
]

-- The hypotheses on a round are those on what is ready.
abbrev pub AllDocumented : SelectReply → Server → Type 0
AllDocumented interrupted w = Unit
AllDocumented failed w = Unit
AllDocumented (ready r) w = Documented r w

-- A round of the select loop of rsystemd on a sound server, whatever the clients send, where
-- select returns the number of descriptors that are ready, a new client is at an address that is
-- not in use and not waited for, and what pdip_recv gives for a shell in RSYSD_STATE_WAIT_STATUS
-- is, if it ends in the prompt, the prompt alone or the prompt behind two bytes or more (not
-- behind a newline alone), and if it does not, not empty: no assertion fails, and the server stays
-- sound: the pointers between shells and clients agree both ways and with the states of the
-- shells, the clients are counted, each is in the list once and in use, and a block for its
-- command has a size above 0.
pub round-Sound :
    (atoi : Bytes → ℕ) (x : SelectReply) (w : Server)
    → Sound w
    → AllDocumented x w
    → Gives (λ goes_on v. Sound v) (round atoi x w)
unfolding round
round-Sound atoi interrupted w s d = s
round-Sound atoi failed w s d = s
round-Sound atoi (ready r) w s d = serve_ready-Sound atoi r w s d
