-- ===== src/Tool/Params.antt =====
-- The string parameters of the tool's commands: `pdip_format_params` of pdip.c. The text is a C string
-- without its NUL: its end is where the code reads the NUL.
pub mod Quoting
pub mod Tests
use win_pdip.Prelude.{
  ℕ, ◌+◌, ◌-◌, bit_and, Bool, true, false, List, [], ◌∷◌, ◌++◌, Bytes, length, leb, ◌==◌,
  if◌then◌else◌,
}

-- The labels state_1, state_2 (behind a backslash) and state_3 (behind a caret).
pub data Label : Type 0 where
  state_1 state_2 state_3 : Label

-- The return code 0 or -1, with the bytes written to `out`; with 0, `*lout` is one less than their
-- number, and the last one is the NUL.
pub data Formatted : Type 0 where
  formatted refused : Bytes → Formatted

-- `PDIP_CTRL`: bit 6 is cleared.
abbrev pub ctrl : ℕ → ℕ
ctrl c = bit_and c 191

-- What an escape sequence stands for.
abbrev pub escaped : ℕ → ℕ
escaped c =
    if c == b'n'
    then 10
    else if c == b't'
    then 9
    else if c == b'b'
    then 8
    else if c == b'a'
    then 7
    else if c == b'f'
    then 12
    else if c == b'r'
    then 13
    else if c == b'v'
    then 11
    else if c == b'['
    then 0x1b
    else if c == b']'
    then 0x1d
    else c

-- From a label on, with the bytes written until then; `limit` is `*lout` at the call.
unfoldable pub format_from : ℕ → Label → Bytes → Bytes → Formatted
format_from limit label [] out = refused out
format_from limit state_1 (c ∷ cs) out =
    let escape = format_from limit state_2 cs out in
    let control = format_from limit state_3 cs out in
    let copy = format_from limit state_1 cs (out ++ (c ∷ [])) in
    if leb limit (length out)
    then refused out
    else if c == b'"'
    then formatted (out ++ (0 ∷ []))
    else if c == b'\\'
    then escape
    else if c == b'^'
    then control
    else copy
format_from limit state_2 (c ∷ cs) out =
    let copy = format_from limit state_1 cs (out ++ (escaped c ∷ [])) in
    if leb limit (length out) then refused out else copy
format_from limit state_3 (c ∷ cs) out =
    let copy = format_from limit state_1 cs (out ++ (ctrl c ∷ [])) in
    if leb limit (length out) then refused out else copy

-- `pdip_format_params`, with no null pointer.
unfoldable pub format_params : ℕ → Bytes → Formatted
unfolding format_from
format_params limit [] = refused []
format_params limit (c ∷ cs) = if c == b'"' then format_from limit state_1 cs [] else refused []
