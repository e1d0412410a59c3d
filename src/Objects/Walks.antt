-- ===== src/Objects/Walks.antt =====
-- The walk over the list of the objects.
use win_pdip.Prelude.{
  ℕ, zero, suc, ◌+◌, ◌≤◌, ◌≡◌, refl, Bool, true, false, none, some, List, [], ◌∷◌, ◌++◌, length,
  arith,
}
use win_pdip.Objects.{Link}
use win_pdip.Objects.Links.{IsChain}
use win_pdip.Objects.Calls.{walk}

-- No object of the list passes the test.
abbrev pub AllFail : (ℕ → Bool) → List ℕ → Type 0
AllFail test [] = Unit
AllFail test (x ∷ xs) = (test x ≡ false) × AllFail test xs

-- The walk finds the first object that passes the test, or none.
pub walk_hit :
    (fuel : ℕ) (n p : ℕ → Link) (test : ℕ → Bool) (before at : Link) (us : List ℕ) (a : ℕ)
    (vs : List ℕ)
    → IsChain n p before at (us ++ (a ∷ vs))
    → length us + 1 ≤ fuel
    → AllFail test us
    → test a ≡ true
    → walk fuel n test at ≡ some (some a)
unfolding walk
walk_hit zero n p test before at us a vs h enough fail e = absurd (omega arith)
walk_hit (suc fuel) n p test before at [] a vs h enough fail e = rw (h.0, e) refl
walk_hit (suc fuel) n p test before at (u ∷ us) a vs h enough fail e =
    rw (h.0, fail.0) (walk_hit fuel n p test (some u) (n u) us a vs h.2 (omega arith) fail.1 e)

pub walk_miss :
    (fuel : ℕ) (n p : ℕ → Link) (test : ℕ → Bool) (before at : Link) (xs : List ℕ)
    → IsChain n p before at xs
    → length xs ≤ fuel
    → AllFail test xs
    → walk fuel n test at ≡ some none
unfolding walk
walk_miss fuel n p test before at [] h enough fail = rw h refl
walk_miss zero n p test before at (x ∷ xs) h enough fail = absurd (omega arith)
walk_miss (suc fuel) n p test before at (x ∷ xs) h enough fail =
    rw (h.0, fail.0) (walk_miss fuel n p test (some x) (n x) xs h.2 (omega arith) fail.1)
