-- ===== src/Rsysd/Server/Members.antt =====
-- The list of the clients, each once, and the list with one of them taken out.
use win_pdip.Prelude.{
  ℕ, ◌≡◌, ◌≢◌, ◌⊎◌, inl, inr, refl, sym, subst, ◌∙◌, List, [], ◌∷◌, ◌==◌, ==_iff, Bool-cases,
}
use win_pdip.Objects.Links.{Fresh, IsDistinct}
use win_pdip.Rsysd.Server.{without}
use win_pdip.Rsysd.Server.Answering.{In}

pub Fresh-In : (c d : ℕ) (ds : List ℕ) → Fresh d ds → In c ds → c ≢ d
Fresh-In c d (x ∷ ds) f (inl e) q = f.0 (sym q ∙ e)
Fresh-In c d (x ∷ ds) f (inr h) q = Fresh-In c d ds f.1 h q
Fresh-In c d [] f h q = absurd h

without-cases :
    (c d : ℕ) (ds : List ℕ)
    → ((without c (d ∷ ds) ≡ ds) × (c ≡ d)) ⊎ ((without c (d ∷ ds) ≡ d ∷ without c ds) × (c ≢ d))
without-cases c d ds = elim (Bool-cases (c == d)) [
  | inl e ↦ inl (rw e refl, (==_iff c d).0 e)
  | inr e ↦ inr (rw e refl, λ q. absurd (cc (e, (==_iff c d).1 q)))
]

pub In-without : (x c : ℕ) (ds : List ℕ) → In x (without c ds) → In x ds
In-without x c [] h = h
In-without x c (d ∷ ds) h = elim (without-cases c d ds) [
  | inl (e, q) ↦ inr (subst (In x) e h)
  | inr (e, q) ↦ elim (In-cons (subst (In x) e h)) [
    | inl here ↦ inl here
    | inr later ↦ inr (In-without x c ds later)
  ]
]
  where
    In-cons : In x (d ∷ without c ds) → (x ≡ d) ⊎ In x (without c ds)
    In-cons k = k

Fresh-without : (x c : ℕ) (ds : List ℕ) → Fresh x ds → Fresh x (without c ds)
Fresh-without x c [] f = f
Fresh-without x c (d ∷ ds) f = elim (without-cases c d ds) [
  | inl (e, q) ↦ subst (Fresh x) (sym e) f.1
  | inr (e, q) ↦ subst (Fresh x) (sym e) (f.0, Fresh-without x c ds f.1)
]

pub IsDistinct-without : (c : ℕ) (ds : List ℕ) → IsDistinct ds → IsDistinct (without c ds)
IsDistinct-without c [] h = h
IsDistinct-without c (d ∷ ds) h = elim (without-cases c d ds) [
  | inl (e, q) ↦ subst IsDistinct (sym e) h.1
  | inr (e, q) ↦ subst IsDistinct (sym e) (Fresh-without d c ds h.0, IsDistinct-without c ds h.1)
]

-- The one taken out is gone, and the others are still there.
pub without-Fresh : (c : ℕ) (ds : List ℕ) → IsDistinct ds → Fresh c (without c ds)
without-Fresh c [] h = tt
without-Fresh c (d ∷ ds) h = elim (without-cases c d ds) [
  | inl (e, q) ↦ subst (Fresh c) (sym e) (subst (λ x. Fresh x ds) (sym q) h.0)
  | inr (e, q) ↦ subst (Fresh c) (sym e) (q, without-Fresh c ds h.1)
]

pub without-In : (x c : ℕ) (ds : List ℕ) → x ≢ c → In x ds → In x (without c ds)
without-In x c [] n h = absurd h
without-In x c (d ∷ ds) n (inl h) = elim (without-cases c d ds) [
  | inl (e, q) ↦ absurd (n (h ∙ sym q))
  | inr (e, q) ↦ subst (In x) (sym e) (inl h)
]
without-In x c (d ∷ ds) n (inr h) = elim (without-cases c d ds) [
  | inl (e, q) ↦ subst (In x) (sym e) h
  | inr (e, q) ↦ subst (In x) (sym e) (inr (without-In x c ds n h))
]

pub In-not_Fresh : (c : ℕ) (ds : List ℕ) → Fresh c ds → In c ds → ⊥
In-not_Fresh c [] f h = h
In-not_Fresh c (d ∷ ds) f (inl e) = f.0 e
In-not_Fresh c (d ∷ ds) f (inr h) = In-not_Fresh c ds f.1 h
