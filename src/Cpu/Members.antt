-- ===== src/Cpu/Members.antt =====
-- A bitmap as a set of CPU numbers: what each operation of Cpu does to the members.
use win_pdip.Prelude.{
  memset, refl, replicate, drop, length-memset, ◌++◌, ℕ, zero, suc, [], ◌∷◌, ◌+◌, ◌-◌, ◌/◌, ◌%◌,
  ◌^◌, ◌≤◌, ◌<◌, ◌≡◌, ◌≢◌, sym, bit_and, bit_or, Bool, true, false, some, arith, Bytes, length,
  get_or, set, leb, ◌==◌, if◌then◌else◌, length-set, get_or-set_self, get_or-set_ne, get_or-memset,
}
use native.Mathlib.Decide.{ℕ_discrete}
use win_pdip.Outcome.{ok, err, einval}
use win_pdip.Cpu.{mask, nb_bytes, cpu_zero, cpu_all, cpu_set, cpu_unset, cpu_isset}
use win_pdip.Cpu.Bits.{bit, bit-set, bit-unset, bit_and_mask, bit-ones, bit-zeros, unset-lt}

-- CPU number `n` is a member.
unfoldable pub has : Bytes → ℕ → Bool
has cpu n = bit (get_or cpu (n / 8) 0) (n % 8)

-- Every element is a byte.
abbrev pub AreBytes : Bytes → Type 0
AreBytes cpu = (i : ℕ) → get_or cpu i 0 < 256

AreBytes-set : (cpu : Bytes) (i b : ℕ) → AreBytes cpu → b < 256 → AreBytes (set cpu i b)
AreBytes-set [] i b v h j = v j
AreBytes-set (x ∷ xs) zero b v h zero = h
AreBytes-set (x ∷ xs) zero b v h (suc j) = v (suc j)
AreBytes-set (x ∷ xs) (suc i) b v h zero = v zero
AreBytes-set (x ∷ xs) (suc i) b v h (suc j) = AreBytes-set xs i b (λ k. v (suc k)) h j

AreBytes-append : (xs ys : Bytes) → AreBytes xs → AreBytes ys → AreBytes (xs ++ ys)
AreBytes-append [] ys v h i = h i
AreBytes-append (x ∷ xs) ys v h zero = v zero
AreBytes-append (x ∷ xs) ys v h (suc i) = AreBytes-append xs ys (λ k. v (suc k)) h i

AreBytes-replicate : (n b : ℕ) → b < 256 → AreBytes (replicate n b)
AreBytes-replicate zero b h i = omega arith
AreBytes-replicate (suc n) b h zero = h
AreBytes-replicate (suc n) b h (suc i) = AreBytes-replicate n b h i

AreBytes-drop : (n : ℕ) (xs : Bytes) → AreBytes xs → AreBytes (drop n xs)
AreBytes-drop zero xs v = v
AreBytes-drop (suc n) [] v = v
AreBytes-drop (suc n) (x ∷ xs) v = AreBytes-drop n xs (λ k. v (suc k))

has-set_self :
    (cpu : Bytes) (n m b : ℕ)
    → n / 8 < length cpu
    → m / 8 ≡ n / 8
    → has (set cpu (n / 8) b) m ≡ bit b (m % 8)
unfolding has
has-set_self cpu n m b h e = rw (e, get_or-set_self cpu (n / 8) b 0 h)

has-set_ne : (cpu : Bytes) (n m b : ℕ) → n / 8 ≢ m / 8 → has (set cpu (n / 8) b) m ≡ has cpu m
unfolding has
has-set_ne cpu n m b ne = rw (get_or-set_ne cpu b 0 ne)

module _ (nb_cpu : ℕ) where
  -- A block with room for the bits of all CPUs.
  pub record IsBitmap (cpu : Bytes) : Type 0 where
    pub count : nb_cpu + 7 < 2 ^ 32
    pub room : nb_bytes nb_cpu ≤ length cpu
    pub bytes : AreBytes cpu

  -- The byte that a CPU number selects lies in the block.
  pub in_room : {cpu : Bytes} (n : ℕ) → IsBitmap cpu → n < nb_cpu → n / 8 < length cpu
  in_room n v h = omega arith

  -- Storing a byte that differs from the old one in bit `n % 8` at most.
  has-store :
      {cpu : Bytes} (n b m : ℕ) (x : Bool)
      → IsBitmap cpu
      → n < nb_cpu
      → bit b (m % 8) ≡ (if n % 8 == m % 8 then x else bit (get_or cpu (n / 8) 0) (m % 8))
      → has (set cpu (n / 8) b) m ≡ (if m == n then x else has cpu m)
  unfolding has
  has-store {cpu} n b m x v h e = elim (ℕ_discrete (m / 8) (n / 8)) [
    | yes q ↦ ground (arith, has-set_self cpu n m b (in_room n v h) q)
    | no q ↦ ground (arith, has-set_ne cpu n m b (λ r. q (sym r)))
  ]

  -- The bitmap after `pdip_cpu_set` or `pdip_cpu_unset` of CPU `n`, which becomes a member or not.
  pub record Updated (cpu : Bytes) (n : ℕ) (x : Bool) (after : Bytes) : Type 0 where
    pub valid : IsBitmap after
    pub size : length after ≡ length cpu
    pub members : (m : ℕ) → has after m ≡ (if m == n then x else has cpu m)

  -- On a bitmap of bytes with room for all CPUs, fewer than 2^32 - 7 of them, pdip_cpu_set of an
  -- existing CPU adds that member and no other and keeps the bitmap well formed; with any other
  -- number it fails with EINVAL.
  pub cpu_set-Updated :
      {cpu : Bytes} (n : ℕ)
      → IsBitmap cpu
      → (n < nb_cpu
          → (after : Bytes) × (cpu_set nb_cpu cpu n ≡ ok after) × Updated cpu n true after)
        × (nb_cpu ≤ n → cpu_set nb_cpu cpu n ≡ err einval)
  unfolding cpu_set
  cpu_set-Updated {cpu} n v = (inside, λ h. ground arith)
    where
      b : ℕ
      b = bit_or (get_or cpu (n / 8) 0) (mask n) % 256

      inside :
          n < nb_cpu
          → (after : Bytes) × (cpu_set nb_cpu cpu n ≡ ok after) × Updated cpu n true after
      inside h = (
        set cpu (n / 8) b,
        ground arith,
        record {
          valid = record {
            count = v.count;
            room = ground (arith, length-set cpu (n / 8) b);
            bytes = AreBytes-set cpu (n / 8) b v.bytes (omega arith);
          };
          size = length-set cpu (n / 8) b;
          members = λ m. has-store n b m true v h (
              ground (
                arith,
                bit-set (get_or cpu (n / 8) 0) (n % 8) (m % 8) (v.bytes _) (omega arith)
                    (omega arith),
              ));
        },
      )

  -- On a bitmap of bytes with room for all CPUs, fewer than 2^32 - 7 of them, pdip_cpu_unset of an
  -- existing CPU removes that member and no other and keeps the bitmap well formed; with any other
  -- number it fails with EINVAL.
  pub cpu_unset-Updated :
      {cpu : Bytes} (n : ℕ)
      → IsBitmap cpu
      → (n < nb_cpu
          → (after : Bytes) × (cpu_unset nb_cpu cpu n ≡ ok after) × Updated cpu n false after)
        × (nb_cpu ≤ n → cpu_unset nb_cpu cpu n ≡ err einval)
  unfolding cpu_unset
  cpu_unset-Updated {cpu} n v = (inside, λ h. ground arith)
    where
      b : ℕ
      b = bit_and (get_or cpu (n / 8) 0) (255 - mask n)

      inside :
          n < nb_cpu
          → (after : Bytes) × (cpu_unset nb_cpu cpu n ≡ ok after) × Updated cpu n false after
      inside h = (
        set cpu (n / 8) b,
        ground arith,
        record {
          valid = record {
            count = v.count;
            room = ground (arith, length-set cpu (n / 8) b);
            bytes =
                AreBytes-set cpu (n / 8) b v.bytes
                  (unset-lt (get_or cpu (n / 8) 0) (n % 8) (v.bytes _) (omega arith));
          };
          size = length-set cpu (n / 8) b;
          members = λ m. has-store n b m false v h (
              ground (
                arith,
                bit-unset (get_or cpu (n / 8) 0) (n % 8) (m % 8) (v.bytes _) (omega arith)
                    (omega arith),
              ));
        },
      )

  -- On a bitmap of bytes with room for all CPUs, fewer than 2^32 - 7 of them, pdip_cpu_isset
  -- answers 1 for a member and 0 for another existing CPU, and fails with EINVAL for any other
  -- number.
  pub cpu_isset-has :
      {cpu : Bytes} (n : ℕ)
      → IsBitmap cpu
      → cpu_isset nb_cpu cpu n
        ≡ (if leb nb_cpu n then err einval else ok (if has cpu n then 1 else 0))
  unfolding cpu_isset has
  cpu_isset-has {cpu} n v =
      ground (arith, bit_and_mask (get_or cpu (n / 8) 0) (n % 8) (v.bytes _) (omega arith))

  -- A block filled by `memset` over the bytes of the bitmap.
  filled-IsBitmap :
      {cpu : Bytes} (b : ℕ) → IsBitmap cpu → b < 256 → IsBitmap (memset cpu b (nb_bytes nb_cpu))
  filled-IsBitmap {cpu} b v h = record {
    count = v.count;
    room = rw (length-memset cpu b (nb_bytes nb_cpu) v.room) v.room;
    bytes =
        unfold memset in
        AreBytes-append (replicate (nb_bytes nb_cpu) b) (drop (nb_bytes nb_cpu) cpu)
          (AreBytes-replicate (nb_bytes nb_cpu) b h) (AreBytes-drop (nb_bytes nb_cpu) cpu v.bytes);
  }

  -- On a bitmap of bytes with room for all CPUs, fewer than 2^32 - 7 of them, pdip_cpu_all makes
  -- every existing CPU a member and keeps the bitmap well formed.
  pub cpu_all-Filled :
      {cpu : Bytes}
      → IsBitmap cpu
      → (a : Bytes) × (cpu_all nb_cpu (some cpu) ≡ ok a)
        × IsBitmap a
        × ((n : ℕ) → n < nb_cpu → has a n ≡ true)
  unfolding cpu_all has
  cpu_all-Filled {cpu} v = (
    _,
    refl,
    filled-IsBitmap 255 v (omega arith),
    λ n h.
        rw (get_or-memset cpu 255 (nb_bytes nb_cpu) (n / 8) (omega (arith, v.count)))
          (bit-ones (n % 8) (omega arith)),
  )

  -- On a bitmap of bytes with room for all CPUs, fewer than 2^32 - 7 of them, pdip_cpu_zero leaves
  -- no existing CPU a member and keeps the bitmap well formed.
  pub cpu_zero-Emptied :
      {cpu : Bytes}
      → IsBitmap cpu
      → (z : Bytes) × (cpu_zero nb_cpu (some cpu) ≡ ok z)
        × IsBitmap z
        × ((n : ℕ) → n < nb_cpu → has z n ≡ false)
  unfolding cpu_zero has
  cpu_zero-Emptied {cpu} v = (
    _,
    refl,
    filled-IsBitmap 0 v (omega arith),
    λ n h.
        rw (get_or-memset cpu 0 (nb_bytes nb_cpu) (n / 8) (omega (arith, v.count)))
          (bit-zeros (n % 8) (omega arith)),
  )
