-- ===== src/Rsysd/Affinity.antt =====
-- The CPU affinity of a shell: `rsysd_get_affinity` of rsys/rsystemd.c, a parser with labels and
-- gotos. The text is a C string without its NUL: its end is where the code reads the NUL.
pub mod Numbers
pub mod Members
pub mod Fields
pub mod Intervals
pub mod Tests
use win_pdip.Prelude.{
  ℕ, zero, suc, ◌+◌, ◌-◌, ◌*◌, ◌%◌, ◌^◌, Bool, true, false, ◌&&◌, Option, none, some, List, [], ◌∷◌,
  Bytes, length, ltb, leb, ◌==◌, if◌then◌else◌,
}
use win_pdip.Outcome.{Result, ok, err}
use win_pdip.Cpu.{cpu_zero, cpu_all, cpu_set}

-- A return code, 0 or -1.
pub data Rc : Type 0 where
  rc_0 rc_error : Rc

-- The labels; the numbers are what `start` holds there. `state_1` has the text of the beginning.
pub data Label : Type 0 where
  beginning state_1 : Label
  state_2 state_3 : ℕ → Label

-- What a label's `switch` ends in: a goto or a return, with the text left and the bitmap, or a loop
-- that does not end.
pub data Next : Type 0 where
  goto : Label → Bytes → Bytes → Next
  return : Rc → Bytes → Bytes → Next
  endless : Next

abbrev pub is_digit : ℕ → Bool
is_digit c = leb b'0' c && leb c b'9'

-- The loop over the digits, in 32-bit unsigned arithmetic, with the text behind them.
unfoldable pub scan_number : ℕ → Bytes → ℕ × Bytes
scan_number acc [] = (acc, [])
scan_number acc (c ∷ cs) = elim (is_digit c) [
  | true ↦ scan_number ((acc * 10 % 2 ^ 32 + (c - b'0')) % 2 ^ 32) cs
  | false ↦ (acc, c ∷ cs)
]

-- A call whose result the code casts to void: on an error the bitmap is as before.
abbrev pub ignore : Bytes → Result Bytes → Bytes
ignore cpu (ok after) = after
ignore cpu (err e) = cpu

-- A goto goes on by `jump`, which says what a label leads to.
abbrev pub follow :
    (Label → Bytes → Bytes → Option (Rc × Bytes × Bytes)) → Next → Option (Rc × Bytes × Bytes)
follow jump (goto label p cpu) = jump label p cpu
follow jump (return rc p cpu) = some (rc, p, cpu)
follow jump endless = none

-- `*offset = p - affinity`
abbrev pub report : Bytes → Option (Rc × Bytes × Bytes) → Option (Rc × ℕ × Bytes)
report affinity none = none
report affinity (some (rc, p, cpu)) = some (rc, length affinity - length p, cpu)

module _ (nb_cpu : ℕ) where
  -- `pdip_cpu_nb() - 1`, unsigned
  abbrev pub last_cpu : ℕ
  last_cpu = (nb_cpu + 2 ^ 32 - 1) % 2 ^ 32

  -- "If one of the numbers is bigger than the number of active CPUs, it is translated into the
  -- biggest CPU number"
  abbrev pub clamp : ℕ → ℕ
  clamp n = if leb nb_cpu n then last_cpu else n

  abbrev pub set_one : Bytes → ℕ → Bytes
  set_one cpu n = ignore cpu (cpu_set nb_cpu cpu n)

  abbrev pub set_all : Bytes → Bytes
  set_all cpu = ignore cpu (cpu_all nb_cpu (some cpu))

  -- The rounds of a loop from `i` on: recursion on the rounds left.
  unfoldable pub set_from : ℕ → ℕ → Bytes → Bytes
  set_from zero i cpu = cpu
  set_from (suc rounds) i cpu = set_from rounds (i + 1) (set_one cpu i)

  -- `for (i = start; i <= end; i ++)`, and what follows it. The counter has 32 bits: it is never above
  -- the biggest number of 32 bits, which `end` is where there is no CPU.
  abbrev pub set_range : ℕ → ℕ → Bytes → (Bytes → Next) → Next
  set_range start end cpu next =
      if end == 2 ^ 32 - 1 then endless else next (set_from (end + 1 - start) start cpu)

  -- The beginning, and `state_1`: a new field.
  unfoldable pub new_field : Bytes → Bytes → Next
  unfolding scan_number
  new_field [] cpu = return rc_0 [] (set_all cpu)
  new_field (c ∷ cs) cpu =
      if c == b':'
      then return rc_0 (c ∷ cs) (set_all cpu)
      else if is_digit c
      then (let (start, p) = scan_number (c - b'0') cs in goto (state_2 (clamp start)) p cpu)
      else if c == b'-'
      then goto (state_3 0) cs cpu
      else if c == b','
      then goto state_1 cs (set_all cpu)
      else return rc_error (c ∷ cs) cpu

  -- `state_2`: behind a number.
  unfoldable pub behind_number : ℕ → Bytes → Bytes → Next
  behind_number start [] cpu = return rc_0 [] (set_one cpu start)
  behind_number start (c ∷ cs) cpu =
      if c == b':'
      then return rc_0 (c ∷ cs) (set_one cpu start)
      else if c == b','
      then goto state_1 cs (set_one cpu start)
      else if c == b'-'
      then goto (state_3 start) cs cpu
      else return rc_error (c ∷ cs) cpu

  -- What follows an interval: a comma is left in the text.
  unfoldable pub behind_interval : Bytes → Bytes → Next
  behind_interval [] cpu = return rc_0 [] cpu
  behind_interval (c ∷ cs) cpu =
      if c == b','
      then goto state_1 (c ∷ cs) cpu
      else if c == b':'
      then return rc_0 (c ∷ cs) cpu
      else return rc_error (c ∷ cs) cpu

  -- An interval whose end is known.
  unfoldable pub interval : ℕ → ℕ → Bytes → Bytes → Next
  unfolding set_from behind_interval
  interval start end p cpu =
      if ltb end start then return rc_error p cpu else set_range start end cpu (behind_interval p)

  -- `state_3`: behind the dash of an interval.
  unfoldable pub behind_dash : ℕ → Bytes → Bytes → Next
  unfolding interval scan_number set_from
  behind_dash start [] cpu = set_range start last_cpu cpu (return rc_0 [])
  behind_dash start (c ∷ cs) cpu =
      if c == b':'
      then set_range start last_cpu cpu (return rc_0 (c ∷ cs))
      else if is_digit c
      then (let (number, p) = scan_number (c - b'0') cs in interval start (clamp number) p cpu)
      else return rc_error (c ∷ cs) cpu

  unfoldable pub at_label : Label → Bytes → Bytes → Next
  unfolding new_field behind_number behind_dash
  at_label beginning p cpu = new_field p cpu
  at_label state_1 p cpu = new_field p cpu
  at_label (state_2 start) p cpu = behind_number start p cpu
  at_label (state_3 start) p cpu = behind_dash start p cpu

  -- From a label on; `none` if the fuel runs out or a loop does not end.
  unfoldable pub run : ℕ → Label → Bytes → Bytes → Option (Rc × Bytes × Bytes)
  run zero label p cpu = none
  run (suc fuel) label p cpu = follow (run fuel) (at_label label p cpu)

  -- `rsysd_get_affinity`: the return code, `*offset` and the bitmap.
  unfoldable pub get_affinity : Bytes → Bytes → Option (Rc × ℕ × Bytes)
  unfolding run at_label
  get_affinity affinity cpu =
      report affinity
        (run (length affinity + 1) beginning affinity (ignore cpu (cpu_zero nb_cpu (some cpu))))
