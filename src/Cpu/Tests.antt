-- ===== src/Cpu/Tests.antt =====
-- The theorems on the bitmaps at a system of 10 CPUs.
use win_pdip.Prelude.{
  ℕ, zero, suc, ◌<◌, ◌≤◌, ◌≡◌, refl, true, false, some, Option, [], ◌∷◌, Bytes, arith,
  if◌then◌else◌, replicate,
}
use win_pdip.Outcome.{ok, err, einval}
use win_pdip.Cpu.{cpu_all, cpu_set, cpu_unset, cpu_isset, cpu_dup}
use win_pdip.Cpu.Members.{
  has, IsBitmap, AreBytes, Updated, cpu_set-Updated, cpu_unset-Updated, cpu_isset-has,
  cpu_all-Filled,
}
use win_pdip.Cpu.Blocks.{cpu_dup-members}

-- CPUs 0, 2 and 9.
abbrev some_cpus : Bytes
some_cpus = 5 ∷ 2 ∷ 0 ∷ []

some_cpus-IsBitmap : IsBitmap 10 some_cpus
some_cpus-IsBitmap = record { count = omega arith; room = omega arith; bytes = small }
  where
    small : AreBytes some_cpus
    small zero = omega arith
    small (suc zero) = omega arith
    small (suc (suc zero)) = omega arith
    small (suc (suc (suc i))) = omega arith

cpu_set-Updated_example :
    (3 < 10
      → (after : Bytes) × (cpu_set 10 some_cpus 3 ≡ ok after) × Updated 10 some_cpus 3 true after)
    × (10 ≤ 3 → cpu_set 10 some_cpus 3 ≡ err einval)
cpu_set-Updated_example = cpu_set-Updated 10 3 some_cpus-IsBitmap

cpu_unset-Updated_example :
    (9 < 10
      → (after : Bytes) × (cpu_unset 10 some_cpus 9 ≡ ok after)
        × Updated 10 some_cpus 9 false after)
    × (10 ≤ 9 → cpu_unset 10 some_cpus 9 ≡ err einval)
cpu_unset-Updated_example = cpu_unset-Updated 10 9 some_cpus-IsBitmap

cpu_isset-has_example : cpu_isset 10 some_cpus 9 ≡ ok (if has some_cpus 9 then 1 else 0)
cpu_isset-has_example = cpu_isset-has 10 9 some_cpus-IsBitmap

cpu_all-Filled_example :
    (a : Bytes) × (cpu_all 10 (some some_cpus) ≡ ok a)
    × IsBitmap 10 a
    × ((n : ℕ) → n < 10 → has a n ≡ true)
cpu_all-Filled_example = cpu_all-Filled 10 some_cpus-IsBitmap

abbrev malloc : ℕ → Option Bytes
malloc n = some (replicate n 7)

cpu_dup-members_example :
    (copy : Bytes) × (cpu_dup 10 malloc (some some_cpus) ≡ ok (some copy))
    × ((m : ℕ) → m < 10 → has copy m ≡ has some_cpus m)
cpu_dup-members_example =
    cpu_dup-members 10 malloc some_cpus (replicate 16 7) some_cpus-IsBitmap refl refl
