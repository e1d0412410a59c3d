-- ===== src/Cpu/Bits.antt =====
-- One byte of a bitmap: what `|=`, `&= ~` and `&` with a one-bit mask do to each of its bits.
-- Every byte and every pair of bit numbers is evaluated.
use win_pdip.Prelude.{
  ℕ, ◌+◌, ◌-◌, ◌*◌, ◌/◌, ◌%◌, ◌^◌, ◌<◌, ◌≡◌, refl, bit_and, bit_or, Bool, true, false, not, ◌&&◌,
  ◌||◌, arith, ◌==◌, ltb, ltb→lt, if◌then◌else◌, passes, passes_at,
}

unfoldable pub bit : ℕ → ℕ → Bool
bit byte k = byte / 2 ^ k % 2 == 1

abbrev same : Bool → Bool → Bool
same a b = if a then b else not b

same→≡ : (a b : Bool) → same a b ≡ true → a ≡ b
same→≡ a b h = ground arith

-- A test of a byte and two bit numbers, as one of a single number.
abbrev packed : (ℕ → ℕ → ℕ → Bool) → ℕ → Bool
packed p x = p (x / 64) (x / 8 % 8) (x % 8)

packed_sound :
    (p : ℕ → ℕ → ℕ → Bool) (b k j : ℕ)
    → passes (packed p) 16384 ≡ true
    → b < 256
    → k < 8
    → j < 8
    → p b k j ≡ true
packed_sound p b k j table hb hk hj =
    let e : b ≡ (b * 64 + k * 8 + j) / 64 = omega arith in
    let f : k ≡ (b * 64 + k * 8 + j) / 8 % 8 = omega arith in
    let g : j ≡ (b * 64 + k * 8 + j) % 8 = omega arith in
    let h = passes_at (packed p) 16384 table (b * 64 + k * 8 + j) (omega arith) in cc

abbrev set_law : ℕ → ℕ → ℕ → Bool
set_law b k j = same (bit (bit_or b (2 ^ k) % 256) j) (k == j || bit b j)

abbrev unset_law : ℕ → ℕ → ℕ → Bool
unset_law b k j = same (bit (bit_and b (255 - 2 ^ k)) j) (not (k == j) && bit b j)

abbrev isset_law : ℕ → ℕ → ℕ → Bool
isset_law b k j = same (bit_and b (2 ^ k) == 0) (not (bit b k))

abbrev byte_law : ℕ → ℕ → ℕ → Bool
byte_law b k j = ltb (bit_and b (255 - 2 ^ k)) 256

set_table : passes (packed set_law) 16384 ≡ true
unfolding passes bit
set_table = refl

unset_table : passes (packed unset_law) 16384 ≡ true
unfolding passes bit
unset_table = refl

isset_table : passes (packed isset_law) 16384 ≡ true
unfolding passes bit
isset_table = refl

byte_table : passes (packed byte_law) 16384 ≡ true
unfolding passes bit
byte_table = refl

ones_table : passes (λ j. bit 255 j) 8 ≡ true
unfolding passes bit
ones_table = refl

zeros_table : passes (λ j. not (bit 0 j)) 8 ≡ true
unfolding passes bit
zeros_table = refl

module _ (b k j : ℕ) (hb : b < 256) (hk : k < 8) (hj : j < 8) where
  pub bit-set : bit (bit_or b (2 ^ k) % 256) j ≡ (k == j || bit b j)
  bit-set = same→≡ _ _ (packed_sound set_law b k j set_table hb hk hj)

  pub bit-unset : bit (bit_and b (255 - 2 ^ k)) j ≡ (not (k == j) && bit b j)
  bit-unset = same→≡ _ _ (packed_sound unset_law b k j unset_table hb hk hj)

module _ (b k : ℕ) (hb : b < 256) (hk : k < 8) where
  pub bit_and_mask : (bit_and b (2 ^ k) == 0) ≡ not (bit b k)
  bit_and_mask = same→≡ _ _ (packed_sound isset_law b k 0 isset_table hb hk (omega arith))

  pub unset-lt : bit_and b (255 - 2 ^ k) < 256
  unset-lt = ltb→lt _ _ (packed_sound byte_law b k 0 byte_table hb hk (omega arith))

pub bit-ones : (j : ℕ) → j < 8 → bit 255 j ≡ true
bit-ones j h = passes_at (λ j. bit 255 j) 8 ones_table j h

pub bit-zeros : (j : ℕ) → j < 8 → bit 0 j ≡ false
bit-zeros j h = let e = passes_at (λ j. not (bit 0 j)) 8 zeros_table j h in ground arith
