-- ===== src/Cpu/Blocks.antt =====
-- The copy of a bitmap.
use win_pdip.Prelude.{
  ℕ, zero, suc, ◌+◌, ◌*◌, ◌/◌, ◌%◌, ◌≤◌, ◌<◌, ◌≡◌, refl, sym, ◌∙◌, ap, some, Option, arith, Bytes,
  length, ltb, get_or, set, length-set, get_or-set_self, get_or-set_ne, if◌then◌else◌,
}
use native.Mathlib.Decide.{ℕ_discrete}
use win_pdip.Outcome.{ok}
use win_pdip.Cpu.{nb_bytes, copy_from, cpu_dup}
use win_pdip.Cpu.Bits.{bit}
use win_pdip.Cpu.Members.{has, IsBitmap}

length-copy_from :
    (nb_cpu n i : ℕ) (src cpu : Bytes) → length (copy_from nb_cpu n i src cpu) ≡ length cpu
unfolding copy_from
length-copy_from nb_cpu zero i src cpu = refl
length-copy_from nb_cpu (suc n) i src cpu =
    length-copy_from nb_cpu n (i + 1) src (set cpu i (get_or src i 0))
    ∙ length-set cpu i (get_or src i 0)

-- The bytes from `i` on, `n` of them, are those of the source; the bytes in front are as before.
pub get_or-copy_from :
    (nb_cpu n i : ℕ) (src cpu : Bytes) (j : ℕ)
    → i + n ≤ length cpu
    → j < i + n
    → get_or (copy_from nb_cpu n i src cpu) j 0
      ≡ (if ltb j i then get_or cpu j 0 else get_or src j 0)
unfolding copy_from
get_or-copy_from nb_cpu zero i src cpu j h l = ground arith
get_or-copy_from nb_cpu (suc n) i src cpu j h l =
    let b : ℕ = get_or src i 0 in
    let ih =
      get_or-copy_from nb_cpu n (i + 1) src (set cpu i b) j (omega (arith, length-set cpu i b))
        (omega arith) in
    elim (ℕ_discrete j i) [
      | yes e ↦ ground (arith, ih, get_or-set_self cpu i b 0 (omega arith))
      | no ne ↦ ground (arith, ih, get_or-set_ne cpu b 0 (λ q. ne (sym q)))
    ]

module _ (nb_cpu : ℕ) where
  -- pdip_cpu_dup of a bitmap of bytes with room for all CPUs, fewer than 2^32 - 7 of them, where
  -- malloc gives a block of the size requested, returns a copy with the same existing CPUs as
  -- members.
  pub cpu_dup-members :
      (malloc : ℕ → Option Bytes) (src block : Bytes)
      → IsBitmap nb_cpu src
      → malloc (nb_bytes nb_cpu * 8) ≡ some block
      → length block ≡ nb_bytes nb_cpu * 8
      → (copy : Bytes) × (cpu_dup nb_cpu malloc (some src) ≡ ok (some copy))
        × ((m : ℕ) → m < nb_cpu → has copy m ≡ has src m)
  unfolding cpu_dup has
  cpu_dup-members malloc src block v granted size = (
    copy_from nb_cpu (nb_bytes nb_cpu) 0 src block,
    rw granted refl,
    λ m h.
        ap (λ (b : ℕ). bit b (m % 8))
          (get_or-copy_from nb_cpu (nb_bytes nb_cpu) 0 src block (m / 8) (omega arith)
              (omega (arith, v.count))
            ∙ ground arith),
  )
