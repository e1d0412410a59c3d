-- ===== src/Prelude/Memory.antt =====
-- Memory blocks as lists of bytes, with the memset and memcpy of the C library on them, and tests
-- by evaluation over a small range.
use Prim.Native.Nat.{ℕ, zero, suc, ◌+◌, ◌≤◌, ◌<◌}
use mathlib.Core.Path.{◌≡◌, ap, ◌∙◌, sym}
use mathlib.Core.Bool.{Bool, true, ◌&&◌}
use mathlib.Core.List.{List, ◌++◌, append_assoc}
use native.Mathlib.Omega.{arith}
use win_pdip.Prelude.Lists.{
  length, get_or, take, drop, replicate, length-append, length-take, length-drop, length-replicate,
  take-append_eq, get_or-append_left, get_or-append_right, get_or-replicate,
}

abbrev pub Bytes : Type 0
Bytes = List ℕ

-- `memset(p, v, n)` on a block that has the room.
unfoldable pub memset : Bytes → ℕ → ℕ → Bytes
memset block v n = replicate n v ++ drop n block

-- `memcpy(p + off, src, length src)` on a block that has the room.
unfoldable pub write_at : Bytes → ℕ → Bytes → Bytes
write_at block off src = take off block ++ (src ++ drop (off + length src) block)

pub length-memset :
    (block : Bytes) (v n : ℕ) → n ≤ length block → length (memset block v n) ≡ length block
unfolding memset
length-memset block v n h =
    omega (
      arith,
      length-append (replicate n v) (drop n block),
      length-replicate n v,
      length-drop n block,
    )

pub get_or-memset : (block : Bytes) (v n i : ℕ) → i < n → get_or (memset block v n) i 0 ≡ v
unfolding memset
get_or-memset block v n i h =
    get_or-append_left (replicate n v) (drop n block) i 0 (omega (arith, length-replicate n v))
    ∙ get_or-replicate n i v 0 h

pub length-write_at :
    (block src : Bytes) (off : ℕ)
    → off + length src ≤ length block
    → length (write_at block off src) ≡ length block
unfolding write_at
length-write_at block src off h = omega (
  arith,
  length-append (take off block) (src ++ drop (off + length src) block),
  length-append src (drop (off + length src) block),
  length-take off block,
  length-drop (off + length src) block,
)

-- What a block holds up to the end of the bytes written.
pub take-write_at :
    (block src : Bytes) (off n : ℕ)
    → off ≤ length block
    → n ≡ off + length src
    → take n (write_at block off src) ≡ take off block ++ src
unfolding write_at
take-write_at block src off n h e =
    ap (take n) assoc
    ∙ take-append_eq n (take off block ++ src) (drop (off + length src) block)
        (omega (arith, length-append (take off block) src, length-take off block))
  where
    assoc :
        take off block ++ (src ++ drop (off + length src) block)
        ≡ (take off block ++ src) ++ drop (off + length src) block
    assoc = sym (append_assoc (take off block) src _)

-- The bytes behind the prefix kept.
pub get_or-write_at :
    (block src : Bytes) (off i j d : ℕ)
    → off ≤ length block
    → j < length src
    → i ≡ off + j
    → get_or (write_at block off src) i d ≡ get_or src j d
unfolding write_at
get_or-write_at block src off i j d h k e =
    get_or-append_right (take off block) _ i j d (omega (arith, length-take off block))
    ∙ get_or-append_left src _ j d k

-- A table: the test is evaluated at every number below the bound.
unfoldable pub passes : (ℕ → Bool) → ℕ → Bool
passes test zero = true
passes test (suc bound) = passes test bound && test bound

pub passes_at :
    (test : ℕ → Bool) (bound : ℕ) → passes test bound ≡ true → (i : ℕ) → i < bound → test i ≡ true
unfolding passes
passes_at test zero table i below = absurd (omega arith)
passes_at test (suc bound) table i below =
    ground (arith, λ (earlier : passes test bound ≡ true). passes_at test bound earlier i)
