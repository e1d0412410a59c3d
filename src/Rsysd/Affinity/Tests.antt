-- ===== src/Rsysd/Affinity/Tests.antt =====
-- Runs of `rsysd_get_affinity`, and the theorems at a system of 4 CPUs.
use win_pdip.Prelude.{
  ℕ, zero, suc, ◌<◌, ◌≤◌, ◌≡◌, refl, true, some, [], ◌∷◌, Bytes, length, arith, memset,
}
use win_pdip.Cpu.{cpu_zero, cpu_all, cpu_set}
use win_pdip.Cpu.Members.{has, IsBitmap, AreBytes}
use win_pdip.Rsysd.Affinity.{
  Rc, rc_0, get_affinity, run, at_label, new_field, behind_number, behind_dash, interval,
  behind_interval, scan_number, set_from,
}
use win_pdip.Rsysd.Affinity.Numbers.{get_affinity_total}
use win_pdip.Rsysd.Affinity.Fields.{Number, IsNumber, render, names, get_affinity_numbers}
use win_pdip.Rsysd.Affinity.Intervals.{interval_comma, get_affinity-interval_comma}

abbrev empty : Bytes
empty = 0 ∷ 0 ∷ []

empty-IsBitmap : IsBitmap 4 empty
empty-IsBitmap = record { count = omega arith; room = omega arith; bytes = small }
  where
    small : AreBytes empty
    small zero = omega arith
    small (suc zero) = omega arith
    small (suc (suc i)) = omega arith

abbrev one : Number
one = record { first = b'1'; others = [] }

-- Bigger than the number of the last CPU.
abbrev twelve : Number
twelve = record { first = b'1'; others = b'2' ∷ [] }

one-IsNumber : IsNumber one
one-IsNumber = ground arith

twelve-IsNumber : IsNumber twelve
twelve-IsNumber = ground arith

-- "1,12"
get_affinity_numbers_example :
    (after : Bytes) × (get_affinity 4 (render one (twelve ∷ [])) empty
      ≡ some (rc_0, length (render one (twelve ∷ [])), after))
    × ((m : ℕ) → m < 4 → has after m ≡ names 4 one (twelve ∷ []) m)
get_affinity_numbers_example =
    get_affinity_numbers 4 (omega arith) (omega arith) one (twelve ∷ []) empty one-IsNumber
      (twelve-IsNumber, tt) empty-IsBitmap

-- "1-1,1" selects all CPUs.
get_affinity-interval_comma_example :
    (rc : Rc) × (offset : ℕ) × (after : Bytes) × (get_affinity 4
        (interval_comma one one (b'1' ∷ []))
        empty
      ≡ some (rc, offset, after))
    × ((m : ℕ) → m < 4 → has after m ≡ true)
get_affinity-interval_comma_example =
    get_affinity-interval_comma 4 (omega arith) (omega arith) one one (b'1' ∷ []) empty one-IsNumber
      one-IsNumber (omega arith) empty-IsBitmap

get_affinity_total_example :
    (rc : Rc) × (offset : ℕ) × (after : Bytes) × (get_affinity 4 (b'3' ∷ b'-' ∷ b'x' ∷ []) empty
      ≡ some (rc, offset, after))
    × (offset ≤ 3)
get_affinity_total_example =
    get_affinity_total 4 (omega arith) (omega arith) (b'3' ∷ b'-' ∷ b'x' ∷ []) empty

-- "0-1,3" on 4 CPUs: the bitmap is 1111, not 1011.
interval_with_comma :
    get_affinity 4 (b'0' ∷ b'-' ∷ b'1' ∷ b',' ∷ b'3' ∷ []) empty ≡ some (rc_0, 5, 255 ∷ 0 ∷ [])
unfolding get_affinity cpu_all cpu_zero cpu_set run at_label new_field behind_number behind_dash
    interval behind_interval scan_number set_from memset
interval_with_comma = refl
