-- ===== src/Dump/Blocks.antt =====
-- The dump of a whole block: the lines show its addresses and its bytes.
use win_pdip.Prelude.{
  ℕ, zero, suc, ◌+◌, ◌*◌, ◌/◌, ◌%◌, ◌^◌, ◌<◌, ◌≤◌, ◌≡◌, refl, sym, ap₂, subst, ◌∙◌, [], ◌∷◌, Bytes,
  length, take, drop, get_or, set, ◌==◌, if◌then◌else◌, length-set, get_or-set_self, get_or-set_ne,
  arith,
}
use win_pdip.Dump.{digit, ascii, ptr2char, dump_bytes, blank_columns}
use win_pdip.Dump.Rows.{
  Apart-address, value, value-digit, byte_at, Apart, Fits, Shows, Shows-byte, dump_bytes-Apart,
  dump_bytes-Shows,
}

-- The number that the first digits of a line stand for
abbrev pub number : ℕ → Bytes → ℕ
number zero line = 0
number (suc n) line = number n line * 16 + value (get_or line n 0)

pub number-same :
    (n : ℕ) (line other : Bytes)
    → ((q : ℕ) → q < n → get_or line q 0 ≡ get_or other q 0)
    → number n line ≡ number n other
number-same zero line other h = refl
number-same (suc n) line other h =
    ap₂ (λ x y. x * 16 + value y) (number-same n line other (λ q k. h q (omega arith)))
      (h n (omega arith))

pub length-ptr2char : (n val : ℕ) (line : Bytes) → length (ptr2char n val line) ≡ length line
unfolding ptr2char
length-ptr2char zero val line = refl
length-ptr2char (suc n) val line = length-ptr2char n _ (set line n _) ∙ length-set line n _

ptr2char-behind :
    (n val q : ℕ) (line : Bytes) → n ≤ q → get_or (ptr2char n val line) q 0 ≡ get_or line q 0
unfolding ptr2char
ptr2char-behind zero val q line h = refl
ptr2char-behind (suc n) val q line h =
    ptr2char-behind n _ q (set line n _) (omega arith)
    ∙ get_or-set_ne line _ 0 (λ e. absurd (omega (arith, e)))

ptr2char-number :
    (n val : ℕ) (line : Bytes)
    → val < 16 ^ n
    → n ≤ length line
    → number n (ptr2char n val line) ≡ val
unfolding ptr2char
ptr2char-number zero val line h room = omega arith
ptr2char-number (suc n) val line h room =
    ap₂ (λ x y. x * 16 + value y)
      (ptr2char-number n rest (set line n (digit (val % 16))) small
        (omega (arith, length-set line n (digit (val % 16)))))
      (ptr2char-behind n rest n (set line n (digit (val % 16))) (omega arith)
        ∙ get_or-set_self line n (digit (val % 16)) 0 (omega arith))
    ∙ ap₂ (λ x y. x * 16 + y) next (value-digit (val % 16) (omega arith))
    ∙ omega arith
  where
    rest : ℕ
    rest = if val % 16 == val then 0 else val / 16

    next : rest ≡ val / 16
    next = ground arith

    small : rest < 16 ^ n
    small = omega (arith, next)

-- A line of the dump: the address, and the bytes as digits and as text.
pub record IsRow (digits addr : ℕ) (bs line : Bytes) : Type 0 where
  pub address : number digits line ≡ addr
  pub bytes : (i : ℕ) → i < length bs → byte_at digits line i ≡ get_or bs i 0
  pub text : (i : ℕ) → i < length bs → get_or line (digits + 50 + i) 0 ≡ ascii (get_or bs i 0)

abbrev pub AllBytes : Bytes → Type 0
AllBytes [] = Unit
AllBytes (b ∷ bs) = (b < 256) × AllBytes bs

AllBytes-at : (bs : Bytes) (i : ℕ) → AllBytes bs → get_or bs i 0 < 256
AllBytes-at [] i h = omega arith
AllBytes-at (b ∷ bs) zero h = h.0
AllBytes-at (b ∷ bs) (suc i) h = AllBytes-at bs i h.1

pub AllBytes-take : (n : ℕ) (bs : Bytes) → AllBytes bs → AllBytes (take n bs)
AllBytes-take zero bs h = tt
AllBytes-take (suc n) [] h = tt
AllBytes-take (suc n) (b ∷ bs) h = (h.0, AllBytes-take n bs h.1)

pub AllBytes-drop : (n : ℕ) (bs : Bytes) → AllBytes bs → AllBytes (drop n bs)
AllBytes-drop zero bs h = h
AllBytes-drop (suc n) [] h = tt
AllBytes-drop (suc n) (b ∷ bs) h = AllBytes-drop n bs h.1

pub dump_bytes-IsRow :
    (digits addr : ℕ) (bs line : Bytes)
    → Fits digits line
    → length bs ≤ 16
    → AllBytes bs
    → addr < 16 ^ digits
    → IsRow digits addr bs (dump_bytes digits 0 bs (ptr2char digits addr line))
dump_bytes-IsRow digits addr bs line fits room clean small = record {
  address =
      number-same digits (dump_bytes digits 0 bs (ptr2char digits addr line))
        (ptr2char digits addr line)
        (λ q k.
          dump_bytes-Apart digits 0 q bs (ptr2char digits addr line)
            (λ i l m. Apart-address digits i q k))
      ∙ ptr2char-number digits addr line small (omega (arith, fits));
  bytes = λ i h. Shows-byte digits i (get_or bs i 0) _ (AllBytes-at bs i clean) (shown i h);
  text = λ i h. (shown i h).text;
}
  where
    shown :
        (i : ℕ)
        → i < length bs
        → Shows digits i (get_or bs i 0) (dump_bytes digits 0 bs (ptr2char digits addr line))
    shown i h =
        subst
          (λ k. Shows digits k (get_or bs i 0) (dump_bytes digits 0 bs (ptr2char digits addr line)))
          (omega arith)
          (dump_bytes-Shows digits 0 i bs (ptr2char digits addr line)
            (length-ptr2char digits addr line ∙ fits) (omega arith) h)

-- The blanks leave what stands in the other columns.
pub blank_columns-Apart :
    (digits n j q : ℕ) (line : Bytes)
    → ((i : ℕ) → j ≤ i → i < j + n → Apart digits i q)
    → get_or (blank_columns digits n j line) q 0 ≡ get_or line q 0
unfolding blank_columns
blank_columns-Apart digits zero j q line h = refl
blank_columns-Apart digits (suc n) j q line h =
    let (a, b, c) = h j (omega arith) (omega arith) in
    blank_columns-Apart digits n (j + 1) q _ (λ i k l. h i (omega arith) (omega arith))
    ∙ get_or-set_ne _ _ 0 (λ e. c (sym e))
    ∙ get_or-set_ne _ _ 0 (λ e. b (sym e))
    ∙ get_or-set_ne line _ 0 (λ e. a (sym e))
