-- ===== src/Dump/Lines.antt =====
-- The lines of a dump, one behind the other.
use win_pdip.Prelude.{ℕ, ◌+◌, ◌<◌, List, [], ◌∷◌, Bytes, length, take, drop}
use win_pdip.Dump.Blocks.{IsRow}

-- The lines show the block, 16 bytes in each but for the last, with their addresses.
pub data AreRows (digits : ℕ) : ℕ → Bytes → List Bytes → Type 0 where
  finished : {addr : ℕ} → AreRows digits addr [] []
  one_row :
      {addr : ℕ} {buf line : Bytes} {lines : List Bytes}
      → 0 < length buf
      → IsRow digits addr (take 16 buf) line
      → AreRows digits (addr + 16) (drop 16 buf) lines
      → AreRows digits addr buf (line ∷ lines)
