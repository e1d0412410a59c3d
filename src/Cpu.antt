-- ===== src/Cpu.antt =====
-- The bitmaps of CPUs: `pdip_cpu_*` of pdip_lib.c. A bitmap is a block of bytes, null is `none`;
-- the section's parameter is the static `pdip_nb_cpu`.
pub mod Bits
pub mod Members
pub mod Blocks
mod Tests
use win_pdip.Prelude.{
  ℕ, ◌+◌, ◌-◌, ◌*◌, ◌/◌, ◌%◌, ◌^◌, bit_and, bit_or, Option, none, some, Bytes, memset, take, drop,
  ◌++◌, get_or, set, leb, ◌==◌, if◌then◌else◌, replicate, length,
}
use win_pdip.Outcome.{Result, ok, err, einval, enomem}

-- `1 << (n & 0x7)`
abbrev pub mask : ℕ → ℕ
mask n = 2 ^ (n % 8)

module _ (nb_cpu : ℕ) where
  -- `PDIP_NB_BYTES_FOR_CPU()`, in 32-bit unsigned arithmetic
  abbrev pub nb_bytes : ℕ
  nb_bytes = (nb_cpu + 7) % 2 ^ 32 / 8

  abbrev pub cpu_nb : ℕ
  cpu_nb = nb_cpu

  -- `malloc` answers with a block of `nb_bytes * sizeof(unsigned char *)` bytes, or with null.
  abbrev pub cpu_alloc : (ℕ → Option Bytes) → Option Bytes
  cpu_alloc malloc = elim (malloc (nb_bytes * 8)) [
    | none ↦ none
    | some block ↦ some (memset block 0 nb_bytes)
  ]

  abbrev pub cpu_free : Option Bytes → Result (Unit {0})
  cpu_free none = err einval
  cpu_free (some cpu) = ok tt

  unfoldable pub cpu_zero : Option Bytes → Result Bytes
  cpu_zero none = err einval
  cpu_zero (some cpu) = ok (memset cpu 0 nb_bytes)

  unfoldable pub cpu_all : Option Bytes → Result Bytes
  cpu_all none = err einval
  cpu_all (some cpu) = ok (memset cpu 0xFF nb_bytes)

  -- `cpu[n >> 3] |= (1 << (n & 0x7))`
  unfoldable pub cpu_set : Bytes → ℕ → Result Bytes
  cpu_set cpu n =
      if leb nb_cpu n
      then err einval
      else ok (set cpu (n / 8) (bit_or (get_or cpu (n / 8) 0) (mask n) % 256))

  -- `cpu[n >> 3] &= ~(1 << (n & 0x7))`: the complement, cut down to a byte, is `255 - mask n`.
  pub cpu_unset : Bytes → ℕ → Result Bytes
  cpu_unset cpu n =
      if leb nb_cpu n
      then err einval
      else ok (set cpu (n / 8) (bit_and (get_or cpu (n / 8) 0) (255 - mask n)))

  pub cpu_isset : Bytes → ℕ → Result ℕ
  cpu_isset cpu n =
      if leb nb_cpu n
      then err einval
      else ok (if bit_and (get_or cpu (n / 8) 0) (mask n) == 0 then 0 else 1)

  -- The copying loop: `n` bytes from index `i` on.
  pub copy_from : ℕ → ℕ → Bytes → Bytes → Bytes
  copy_from ℕ.zero i src cpu = cpu
  copy_from (ℕ.suc n) i src cpu = copy_from n (i + 1) src (set cpu i (get_or src i 0))

  pub cpu_dup : (ℕ → Option Bytes) → Option Bytes → Result (Option Bytes)
  unfolding copy_from
  cpu_dup malloc none = err einval
  cpu_dup malloc (some src) = ok (elim (malloc (nb_bytes * 8)) [
    | none ↦ none
    | some block ↦ some (copy_from nb_bytes 0 src block)
  ])
