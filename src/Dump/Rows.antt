-- ===== src/Dump/Rows.antt =====
-- What a line of the dump holds: each byte can be read back from its two digits.
use win_pdip.Prelude.{
  ℕ, zero, suc, ◌+◌, ◌-◌, ◌*◌, ◌/◌, ◌%◌, ◌<◌, ◌≤◌, ◌≡◌, ◌≢◌, refl, sym, ap₂, subst, ◌∙◌, [], ◌∷◌,
  Bytes, length, get_or, set, leb, if◌then◌else◌, length-set, get_or-set_self, get_or-set_ne, arith,
}
use win_pdip.Dump.{digit, ascii, dump_byte, dump_bytes}

-- The value of a hexadecimal digit
abbrev pub value : ℕ → ℕ
value c = if leb c b'9' then c - b'0' else c - b'A' + 10

pub value-digit : (v : ℕ) → v < 16 → value (digit v) ≡ v
value-digit v h = ground arith

-- The byte that two digits stand for
abbrev pub byte_at : ℕ → Bytes → ℕ → ℕ
byte_at digits line j =
    value (get_or line (digits + 1 + j * 3) 0) * 16
    + value (get_or line (digits + 1 + (j * 3 + 1)) 0)

-- The positions of column `j`
abbrev pub Apart : ℕ → ℕ → ℕ → Type 0
Apart digits j q = (q ≢ digits + 1 + (j * 3 + 1)) × (q ≢ digits + 1 + j * 3) × (q ≢ digits + 50 + j)

pub differ : {a b : ℕ} → a < b → a ≢ b
differ h e = absurd (omega (arith, e))

pub Apart-address : (digits k q : ℕ) → q < digits → Apart digits k q
Apart-address digits k q h = (differ (omega arith), differ (omega arith), differ (omega arith))

-- An earlier column stands apart.
pub Apart-high : (digits k i : ℕ) → i < k → k < 16 → Apart digits k (digits + 1 + i * 3)
Apart-high digits k i h room = (differ (omega arith), differ (omega arith), differ (omega arith))

pub Apart-low : (digits k i : ℕ) → i < k → k < 16 → Apart digits k (digits + 1 + (i * 3 + 1))
Apart-low digits k i h room = (differ (omega arith), differ (omega arith), differ (omega arith))

pub Apart-text : (digits k i : ℕ) → i < k → k < 16 → Apart digits k (digits + 50 + i)
Apart-text digits k i h room =
    (λ e. absurd (omega (arith, e)), λ e. absurd (omega (arith, e)), differ (omega arith))

dump_byte-Apart :
    (digits j b q : ℕ) (line : Bytes)
    → Apart digits j q
    → get_or (dump_byte digits j b line) q 0 ≡ get_or line q 0
dump_byte-Apart digits j b q line (h, k, l) =
    get_or-set_ne _ _ 0 (λ e. l (sym e))
    ∙ get_or-set_ne _ _ 0 (λ e. k (sym e))
    ∙ get_or-set_ne line _ 0 (λ e. h (sym e))

length-dump_byte :
    (digits j b : ℕ) (line : Bytes) → length (dump_byte digits j b line) ≡ length line
length-dump_byte digits j b line =
    length-set (set (set line _ _) _ _) _ _ ∙ length-set (set line _ _) _ _ ∙ length-set line _ _

-- Further columns leave what stands in front of them.
pub dump_bytes-Apart :
    (digits j q : ℕ) (bs line : Bytes)
    → ((i : ℕ) → j ≤ i → i < j + length bs → Apart digits i q)
    → get_or (dump_bytes digits j bs line) q 0 ≡ get_or line q 0
unfolding dump_bytes
dump_bytes-Apart digits j q [] line h = refl
dump_bytes-Apart digits j q (b ∷ bs) line h =
    dump_bytes-Apart digits (j + 1) q bs (dump_byte digits j b line)
      (λ i k l. h i (omega arith) (omega arith))
    ∙ dump_byte-Apart digits j b q line (h j (omega arith) (omega arith))

-- A line has room for the address, the columns and the text.
abbrev pub Fits : ℕ → Bytes → Type 0
Fits digits line = length line ≡ digits + 68

pub length-dump_bytes :
    (digits j : ℕ) (bs line : Bytes) → length (dump_bytes digits j bs line) ≡ length line
unfolding dump_bytes
length-dump_bytes digits j [] line = refl
length-dump_bytes digits j (b ∷ bs) line =
    length-dump_bytes digits (j + 1) bs (dump_byte digits j b line)
    ∙ length-dump_byte digits j b line

-- Column `j` shows byte `b`.
pub record Shows (digits j b : ℕ) (line : Bytes) : Type 0 where
  pub high : get_or line (digits + 1 + j * 3) 0 ≡ digit (b / 16)
  pub low : get_or line (digits + 1 + (j * 3 + 1)) 0 ≡ digit (b % 16)
  pub text : get_or line (digits + 50 + j) 0 ≡ ascii b

dump_byte-Shows :
    (digits j b : ℕ) (line : Bytes)
    → Fits digits line
    → j < 16
    → Shows digits j b (dump_byte digits j b line)
dump_byte-Shows digits j b line fits h = record {
  high =
      get_or-set_ne two _ 0 (λ e. absurd (omega (arith, e)))
      ∙ get_or-set_self one (digits + 1 + j * 3) _ 0
          (omega (arith, fits, length-set line (digits + 1 + (j * 3 + 1)) (digit (b % 16))));
  low =
      get_or-set_ne two _ 0 (λ e. absurd (omega (arith, e)))
      ∙ get_or-set_ne one _ 0 (λ e. absurd (omega (arith, e)))
      ∙ get_or-set_self line (digits + 1 + (j * 3 + 1)) _ 0 (omega (arith, fits));
  text = get_or-set_self two (digits + 50 + j) _ 0 (
      omega (
        arith,
        fits,
        length-set one (digits + 1 + j * 3) (digit (b / 16)),
        length-set line (digits + 1 + (j * 3 + 1)) (digit (b % 16)),
      ));
}
  where
    one : Bytes
    one = set line (digits + 1 + (j * 3 + 1)) (digit (b % 16))

    two : Bytes
    two = set one (digits + 1 + j * 3) (digit (b / 16))

-- A column that is shown is shown behind further ones.
dump_bytes-still :
    (digits i j b : ℕ) (bs line : Bytes)
    → i < j
    → j + length bs ≤ 16
    → Shows digits i b line
    → Shows digits i b (dump_bytes digits j bs line)
dump_bytes-still digits i j b bs line lt room s = record {
  high =
      dump_bytes-Apart digits j (digits + 1 + i * 3) bs line
        (λ k l m. Apart-high digits k i (omega arith) (omega arith))
      ∙ s.high;
  low =
      dump_bytes-Apart digits j (digits + 1 + (i * 3 + 1)) bs line
        (λ k l m. Apart-low digits k i (omega arith) (omega arith))
      ∙ s.low;
  text =
      dump_bytes-Apart digits j (digits + 50 + i) bs line
        (λ k l m. Apart-text digits k i (omega arith) (omega arith))
      ∙ s.text;
}

pub dump_bytes-Shows :
    (digits j i : ℕ) (bs line : Bytes)
    → Fits digits line
    → j + length bs ≤ 16
    → i < length bs
    → Shows digits (i + j) (get_or bs i 0) (dump_bytes digits j bs line)
unfolding dump_bytes
dump_bytes-Shows digits j i [] line fits room h = absurd (omega arith)
dump_bytes-Shows digits j zero (b ∷ bs) line fits room h =
    subst (λ k. Shows digits k b (dump_bytes digits (j + 1) bs (dump_byte digits j b line)))
      (omega arith)
      (dump_bytes-still digits j (j + 1) b bs (dump_byte digits j b line) (omega arith)
        (omega arith) (dump_byte-Shows digits j b line fits (omega arith)))
dump_bytes-Shows digits j (suc i) (b ∷ bs) line fits room h =
    subst
      (λ k.
        Shows digits k (get_or bs i 0) (dump_bytes digits (j + 1) bs (dump_byte digits j b line)))
      (omega arith)
      (dump_bytes-Shows digits (j + 1) i bs (dump_byte digits j b line)
        (length-dump_byte digits j b line ∙ fits) (omega arith) (omega arith))

-- The byte is what its two digits stand for.
pub Shows-byte :
    (digits j b : ℕ) (line : Bytes) → b < 256 → Shows digits j b line → byte_at digits line j ≡ b
Shows-byte digits j b line h s =
    ap₂ (λ x y. value x * 16 + value y) s.high s.low
    ∙ ap₂ (λ x y. x * 16 + y) (value-digit (b / 16) (omega arith))
        (value-digit (b % 16) (omega arith))
    ∙ omega arith
