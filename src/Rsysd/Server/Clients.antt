-- ===== src/Rsysd/Server/Clients.antt =====
-- What the loop over the clients keeps.
use win_pdip.Prelude.{
  ℕ, ◌+◌, ◌-◌, ◌≡◌, ◌≢◌, inl, inr, refl, sym, ap, subst, ◌∙◌, Bool, true, false, List, [], ◌∷◌,
  Bytes, length, ltb, Bool-cases, if◌then◌else◌, arith,
}
use win_pdip.Objects.Links.{IsDistinct}
use win_pdip.Rsysd.Fsm.{
  State, free, allocated, wait_eoc, wait_status, freeing, Answers, is_allocated,
}
use win_pdip.Rsysd.Fsm.Deletion.{IsPlain}
use win_pdip.Rsysd.Server.{
  Client, Server, Outcome, done, aborted, ◌>>=◌, Input, is_free, without, serve_client,
}
use win_pdip.Rsysd.Server.Wiring.{Wired, Ends, nat-cases}
use win_pdip.Rsysd.Server.Serving.{IsSized}
use win_pdip.Rsysd.Server.Answering.{In, Settled, serve_client-Settled}
use win_pdip.Rsysd.Server.Members.{
  Fresh-In, In-without, IsDistinct-without, without-Fresh, without-In,
}
use win_pdip.Rsysd.Server.Loop.{Ready, serve_clients}

-- The server between two rounds: the pointers are right, the clients are counted, each is in the list
-- once and in use.
pub record Sound (w : Server) : Type 0 where
  pub wired : Wired w
  pub counted : w.nb_clients ≡ length w.clients
  pub distinct : IsDistinct w.clients
  pub live : (c : ℕ) → In c w.clients → is_allocated (w.client_at c).state ≡ true
  pub sized : (c : ℕ) → In c w.clients → IsSized (w.client_at c)

-- A step gives a value and a state, and they have the property.
abbrev pub Gives : {A : Type 0} → (A → Server → Type 0) → Outcome A → Type 0
Gives P (done a w) = P a w
Gives P aborted = ⊥

pub Gives->>= :
    {A B : Type 0} (P : A → Server → Type 0) (Q : B → Server → Type 0) (r : Outcome A)
    (f : A → Server → Outcome B)
    → Gives P r
    → ((a : A) (w : Server) → P a w → Gives Q (f a w))
    → Gives Q (r >>= f)
Gives->>= P Q (done a w) f h k = k a w h
Gives->>= P Q aborted f h k = h

Ends-Gives :
    {A : Type 0} (P Q : Server → Type 0) (r : Outcome A)
    → Ends P r
    → ((w : Server) → P w → Q w)
    → Gives (λ a w. Q w) r
Ends-Gives P Q (done a w) h f = f w h
Ends-Gives P Q aborted h f = h

-- The step for a client keeps the others in the list.
abbrev Served : ℕ → Server → Server → Type 0
Served c w v = Sound v × ((x : ℕ) → x ≢ c → In x w.clients → In x v.clients)

in_use : (s : State) → IsPlain s → is_free s ≡ false → is_allocated s ≡ true
in_use free p e = absurd (cc e)
in_use allocated p e = refl
in_use wait_eoc p e = absurd p
in_use wait_status p e = absurd p
in_use freeing p e = absurd p

Settled-Served : (c : ℕ) (w v : Server) → Sound w → Settled c w v → Served c w v
Settled-Served c w v s t = elim (Bool-cases (is_free (v.client_at c).state)) [
  | inl e ↦ (
    record {
      wired = t.wired;
      counted = t.counted;
      distinct = subst IsDistinct (sym (t.deleted e)) (IsDistinct-without c w.clients s.distinct);
      live = λ x h.
          ap (λ (k : Client). is_allocated k.state) (t.others x (gone e x h))
          ∙ s.live x (In-without x c w.clients (subst (In x) (t.deleted e) h));
      sized = λ x h.
          subst IsSized (sym (t.others x (gone e x h)))
            (s.sized x (In-without x c w.clients (subst (In x) (t.deleted e) h)));
    },
    λ x n h. subst (In x) (sym (t.deleted e)) (without-In x c w.clients n h),
  )
  | inr e ↦ (
    record {
      wired = t.wired;
      counted = t.counted;
      distinct = subst IsDistinct (sym (t.kept e)) s.distinct;
      live = λ x h. elim (nat-cases x c) [
        | inl q ↦
            subst (λ y. is_allocated (v.client_at y).state ≡ true) (sym q)
              (in_use (v.client_at c).state t.plain e)
        | inr o ↦
            ap (λ (k : Client). is_allocated k.state) (t.others x o)
            ∙ s.live x (subst (In x) (t.kept e) h)
      ];
      sized = λ x h. elim (nat-cases x c) [
        | inl q ↦ subst (λ y. IsSized (v.client_at y)) (sym q) t.sized
        | inr o ↦ subst IsSized (sym (t.others x o)) (s.sized x (subst (In x) (t.kept e) h))
      ];
    },
    λ x n h. subst (In x) (sym (t.kept e)) h,
  )
]
  where
    gone : is_free (v.client_at c).state ≡ true → (x : ℕ) → In x v.clients → x ≢ c
    gone e x h =
        Fresh-In x c (without c w.clients) (without-Fresh c w.clients s.distinct)
          (subst (In x) (t.deleted e) h)

serve_client-Served :
    (atoi : Bytes → ℕ) (c : ℕ) (i : Input) (a b : Answers) (w : Server)
    → Sound w
    → In c w.clients
    → Gives (λ u v. Served c w v) (serve_client atoi c i a b w)
serve_client-Served atoi c i a b w s h =
    Ends-Gives (Settled c w) (Served c w) (serve_client atoi c i a b w)
      (serve_client-Settled atoi c i a b w s.wired s.counted h (s.live c h) (s.sized c h))
      (λ v t. Settled-Served c w v s t)

-- How many of the clients are ready
abbrev pub count : (ℕ → Bool) → List ℕ → ℕ
count is_ready [] = 0
count is_ready (c ∷ cs) = if is_ready c then count is_ready cs + 1 else count is_ready cs

pub serve_clients-Sound :
    (atoi : Bytes → ℕ) (r : Ready) (cs : List ℕ) (nb : ℕ) (w : Server)
    → Sound w
    → IsDistinct cs
    → ((x : ℕ) → In x cs → In x w.clients)
    → nb ≡ count r.clients cs
    → Gives (λ n v. (n ≡ 0) × Sound v) (serve_clients atoi r cs nb w)
unfolding serve_clients
serve_clients-Sound atoi r [] nb w s d h e = (e, s)
serve_clients-Sound atoi r (c ∷ cs) nb w s d h e = elim (Bool-cases (ltb 0 nb)) [
  | inr none_ready ↦ rw none_ready (ground arith, s)
  | inl some_ready ↦ elim (Bool-cases (r.clients c)) [
    | inr passed ↦
        rw (some_ready, passed)
          (serve_clients-Sound atoi r cs nb w s d.1 (λ x k. h x (inr k)) (ground arith))
    | inl served ↦
        rw (some_ready, served)
          (Gives->>= (λ u v. Served c w v) (λ n v. (n ≡ 0) × Sound v) _
            (λ u v. serve_clients atoi r cs (nb - 1) v)
            (serve_client-Served atoi c (r.inputs c) (r.link_answers c) (r.client_answers c) w s
              (h c (inl refl)))
            (λ u v t.
              serve_clients-Sound atoi r cs (nb - 1) v t.0 d.1
                (λ x k. t.1 x (Fresh-In x c cs d.0 k) (h x (inr k))) (ground arith)))
  ]
]
