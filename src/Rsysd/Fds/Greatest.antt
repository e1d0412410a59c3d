-- ===== src/Rsysd/Fds/Greatest.antt =====
-- The greatest descriptor as a bound of its set, in `rsysd_add_set` and `rsysd_remove_set`.
use win_pdip.Prelude.{
  ℕ, zero, suc, ◌≤◌, ◌<◌, ◌≡◌, ◌≢◌, inl, inr, ap, Bool, true, false, Bool-cases, ◌==◌,
  if◌then◌else◌, arith, ==_iff, List, [], ◌∷◌,
}
use native.Mathlib.Decide.{ℕ_discrete}
use win_pdip.Rsysd.Fds.{Fds, add_set, highest, remove_set}

-- No member is above the greatest descriptor, so that `select` sees all of them.
abbrev pub IsBounded : Fds → Type 0
IsBounded s = (i : ℕ) → s.member i ≡ true → i ≤ s.fd_max

-- The loop finds the greatest member below `n`, if there is one.
record Highest (member : ℕ → Bool) (n old top : ℕ) : Type 0 where
  bound : (i : ℕ) → i < n → member i ≡ true → i ≤ top
  within : n ≤ old → top ≤ old
  found : (i : ℕ) → i < n → member i ≡ true → member top ≡ true

below : (member : ℕ → Bool) (n i : ℕ) → member n ≡ false → i < suc n → member i ≡ true → i < n
below member n i absent h e = elim (ℕ_discrete i n) [
  | yes same ↦ absurd (ground (arith, ap member same))
  | no other ↦ omega arith
]

highest-Highest : (member : ℕ → Bool) (n old : ℕ) → Highest member n old (highest member n old)
unfolding highest
highest-Highest member zero old = record {
  bound = λ i h e. absurd (omega arith);
  within = λ h. omega arith;
  found = λ i h e. absurd (omega arith);
}
highest-Highest member (suc n) old =
    let ih = highest-Highest member n old in
    elim (Bool-cases (member n)) [
      | inl top ↦
          rw (top, highest)
            (record {
              bound = λ i h e. omega arith;
              within = λ h. omega arith;
              found = λ i h e. top;
            })
      | inr absent ↦
          rw (absent, highest)
            (record {
              bound = λ i h e. ih.bound i (below member n i absent h e) e;
              within = λ h. ih.within (omega arith);
              found = λ i h e. ih.found i (below member n i absent h e) e;
            })
    ]

add_set-IsBounded : (fd : ℕ) (s : Fds) → IsBounded s → IsBounded (add_set fd s)
unfolding add_set
add_set-IsBounded fd s v i e = ground (arith, v i)

-- rsysd_remove_set keeps the greatest descriptor a bound of the set; where it removes the greatest
-- descriptor itself and another is left, the new greatest one is in the set.
pub remove_set-IsBounded :
    (fd : ℕ) (s : Fds)
    → IsBounded s
    → IsBounded (remove_set fd s)
      × ((i : ℕ)
          → (remove_set fd s).member i ≡ true
          → s.fd_max ≡ fd
          → (remove_set fd s).member (remove_set fd s).fd_max ≡ true)
unfolding remove_set
remove_set-IsBounded fd s v = (bounded, top)
  where
    member : ℕ → Bool
    member i = if i == fd then false else s.member i

    search : Highest member fd s.fd_max (highest member fd s.fd_max)
    search = highest-Highest member fd s.fd_max

    left : (i : ℕ) → member i ≡ true → (s.member i ≡ true) × (i ≢ fd)
    left i e = (ground arith, λ q. ground arith)

    bounded : IsBounded (remove_set fd s)
    bounded i e = elim (Bool-cases (s.fd_max == fd)) [
      | inl greatest ↦
          let low : i < fd =
            omega (arith, v i (left i e).0, (left i e).1, (==_iff s.fd_max fd).0 greatest) in
          rw greatest (search.bound i low e)
      | inr other ↦ rw other (v i (left i e).0)
    ]

    top :
        (i : ℕ)
        → (remove_set fd s).member i ≡ true
        → s.fd_max ≡ fd
        → (remove_set fd s).member (remove_set fd s).fd_max ≡ true
    top i e same =
        let greatest : (s.fd_max == fd) ≡ true = ground arith in
        let low : i < fd = omega (arith, v i (left i e).0, (left i e).1, same) in
        rw greatest (search.found i low e)

-- The two changes of a set.
pub data Change : Type 0 where
  add remove : ℕ → Change

abbrev pub change : Change → Fds → Fds
change (add fd) s = add_set fd s
change (remove fd) s = remove_set fd s

unfoldable pub changes : List Change → Fds → Fds
changes [] s = s
changes (c ∷ cs) s = changes cs (change c s)

-- After any sequence of rsysd_add_set and rsysd_remove_set from a set of descriptors that the
-- greatest descriptor bounds, it bounds the set.
pub changes-IsBounded : (cs : List Change) (s : Fds) → IsBounded s → IsBounded (changes cs s)
unfolding changes
changes-IsBounded [] s v = v
changes-IsBounded (add fd ∷ cs) s v = changes-IsBounded cs (add_set fd s) (add_set-IsBounded fd s v)
changes-IsBounded (remove fd ∷ cs) s v =
    changes-IsBounded cs (remove_set fd s) (remove_set-IsBounded fd s v).0
