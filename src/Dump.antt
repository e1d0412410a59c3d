-- ===== src/Dump.antt =====
-- The dump of a block of memory: `ptr2char` and `pdip_dump` of pdip_util.c. The parameter is
-- `sizeof(void *)*2`, the number of digits of an address; a line is its bytes with their NUL.
pub mod Rows
pub mod Blocks
pub mod Lines
pub mod Tests
use win_pdip.Prelude.{
  ℕ, zero, suc, ◌+◌, ◌-◌, ◌*◌, ◌/◌, ◌%◌, ◌^◌, Bool, ◌&&◌, List, [], ◌∷◌, Bytes, length, take, drop,
  set, replicate, ltb, leb, ◌==◌, if◌then◌else◌,
}

-- A hexadecimal digit
abbrev pub digit : ℕ → ℕ
digit v = if ltb v 10 then v + b'0' else v - 10 + b'A'

-- `ptr2char`: the digits of a number, from the last of `n` positions back to the first
unfoldable pub ptr2char : ℕ → ℕ → Bytes → Bytes
ptr2char zero val buf = buf
ptr2char (suc n) val buf =
    ptr2char n (if val % 16 == val then 0 else val / 16) (set buf n (digit (val % 16)))

-- "ASCII translation"
abbrev pub ascii : ℕ → ℕ
ascii b = if leb 32 b && leb b 127 then b else b'.'

-- `size_line`: `blk_size` is 512.
abbrev pub size_line : ℕ
size_line = 16

module _ (digits : ℕ) where
  -- "Initialization of the buffer", "The stars" and "Terminating NUL"
  abbrev pub blank_line : Bytes
  blank_line =
      set (set (set (replicate (digits + 68) b' ') (digits + 49) b'*') (digits + 66) b'*')
        (digits + 67) 0

  -- The body of the loop over the bytes of a line: byte `b` in column `j`
  abbrev pub dump_byte : ℕ → ℕ → Bytes → Bytes
  dump_byte j b line =
      set
        (set (set line (digits + 1 + (j * 3 + 1)) (digit (b % 16))) (digits + 1 + j * 3)
          (digit (b / 16)))
        (digits + 50 + j) (ascii b)

  unfoldable pub dump_bytes : ℕ → Bytes → Bytes → Bytes
  dump_bytes j [] line = line
  dump_bytes j (b ∷ bs) line = dump_bytes (j + 1) bs (dump_byte j b line)

  -- The blanks in the last line: `n` columns from `j` on
  unfoldable pub blank_columns : ℕ → ℕ → Bytes → Bytes
  blank_columns zero j line = line
  blank_columns (suc n) j line = blank_columns n (j + 1) (
      set (set (set line (digits + 1 + (j * 3 + 1)) b' ') (digits + 1 + j * 3) b' ')
        (digits + 50 + j) b' ')

  -- "End if last_line"
  abbrev pub last_row : ℕ → ℕ → Bytes → Bytes → List Bytes
  last_row zero addr buf line = []
  last_row (suc last) addr buf line =
      blank_columns (size_line - suc last) (suc last) (dump_bytes 0 buf (ptr2char digits addr line))
      ∷ []

  -- The lines printed: `n` full ones, and the last one
  unfoldable pub rows : ℕ → ℕ → ℕ → Bytes → Bytes → List Bytes
  unfolding ptr2char dump_bytes blank_columns
  rows zero last addr buf line = last_row last addr buf line
  rows (suc n) last addr buf line =
      let printed = dump_bytes 0 (take size_line buf) (ptr2char digits addr line) in
      printed ∷ rows n last (addr + size_line) (drop size_line buf) printed

  -- `pdip_dump` of a block at an address
  unfoldable pub dump : ℕ → Bytes → List Bytes
  unfolding rows
  dump addr buf =
      rows (length buf / size_line % 2 ^ 32) (length buf % size_line) addr buf blank_line
