-- ===== src/Rsystem/Trimming.antt =====
-- What `rsystem` of rsys/rsystem.c sends for a command line.
use win_pdip.Prelude.{
  ℕ, zero, suc, ◌+◌, ◌≤◌, ◌<◌, ◌≡◌, refl, ap, ◌∙◌, true, false, some, none, List, [], ◌∷◌, ◌++◌,
  Bytes, length, take, get_or, leb, ◌==◌, length-append, take-append_ge, ap₂, ◌-◌,
  get_or-append_right, arith,
}
use win_pdip.Tool.Cmdline.{isspace}
use win_pdip.Rsystem.{Reply, aborted, Writes, Texts, buffer_size, receive, trim, run, rsystem}

-- Only blanks.
abbrev pub Blanks : Bytes → Type 0
Blanks [] = Unit
Blanks (c ∷ cs) = (isspace c ≡ true) × Blanks cs

pub get_or-Blanks : (b : Bytes) (i : ℕ) → Blanks b → i < length b → isspace (get_or b i 0) ≡ true
get_or-Blanks [] i h below = absurd (omega arith)
get_or-Blanks (c ∷ b) zero h below = h.0
get_or-Blanks (c ∷ b) (suc i) h below = get_or-Blanks b i h.1 (omega arith)

-- One step back over a blank, and the stop at another character.
trim-back :
    (cmd : Bytes) (i : ℕ) → isspace (get_or cmd (suc i) 0) ≡ true → trim cmd (suc i) ≡ trim cmd i
unfolding trim
trim-back cmd i e = rw e refl

trim-stop : (cmd : Bytes) (i : ℕ) → isspace (get_or cmd i 0) ≡ false → trim cmd i ≡ some (i + 1)
unfolding trim
trim-stop cmd zero e = rw e refl
trim-stop cmd (suc i) e = rw e refl

-- A text that does not end in a blank, with blanks behind it.
get_or-word : (s b : Bytes) (c : ℕ) → get_or (s ++ (c ∷ b)) (length s) 0 ≡ c
get_or-word s b c = get_or-append_right s (c ∷ b) (length s) 0 0 (omega arith)

pub trim-word :
    (s b : Bytes) (c n i : ℕ)
    → isspace c ≡ false
    → Blanks b
    → n ≤ length b
    → i ≡ n + length s
    → trim (s ++ (c ∷ b)) i ≡ some (length s + 1)
trim-word s b c zero i solid h below e =
    ap (trim (s ++ (c ∷ b))) (omega arith)
    ∙ trim-stop (s ++ (c ∷ b)) (length s) (ap isspace (get_or-word s b c) ∙ solid)
trim-word s b c (suc n) zero solid h below e = absurd (omega arith)
trim-word s b c (suc n) (suc i) solid h below e =
    trim-back (s ++ (c ∷ b)) i (
      ap isspace (get_or-append_right s (c ∷ b) (suc i) (suc n) 0 (omega arith))
      ∙ get_or-Blanks b n h (omega arith))
    ∙ trim-word s b c n i solid h (omega arith) (omega arith)

pub trim-Blanks : (b : Bytes) (i : ℕ) → Blanks b → i < length b → trim b i ≡ none
unfolding trim
trim-Blanks b zero h below = rw (get_or-Blanks b zero h below) refl
trim-Blanks b (suc i) h below =
    rw (get_or-Blanks b (suc i) h below) (trim-Blanks b i h (omega arith))

-- Both writes succeed.
abbrev pub written : Writes
written = record { header_ok = true; command_ok = true }

-- A text that `vsnprintf` gives.
abbrev pub fits : Bytes → Texts
fits cmd = record { formatted = some cmd; allocated = none }

-- rsystem with a connection and a command of at most 4096 bytes that holds another character than
-- blanks, where both writes succeed: the server gets the command up to its last such character and
-- a NUL, with the length of both, and the call goes on with the answers.
pub rsystem-trimmed :
    (s b : Bytes) (c : ℕ) (rs : List Reply)
    → isspace c ≡ false
    → Blanks b
    → length (s ++ (c ∷ b)) ≤ buffer_size
    → rsystem true true (fits (s ++ (c ∷ b))) written rs ≡ (
      receive rs [],
      some (record { msg_length = length s + 2; command = (s ++ (c ∷ [])) ++ (0 ∷ []) }),
    )
unfolding rsystem run
rsystem-trimmed s b c rs solid h room =
    rw (short, filled, trim-word s b c (length b) _ solid h (omega arith) last)
      (ap₂ (λ n t. (receive rs [], some (record { msg_length = n; command = t ++ (0 ∷ []) })))
        (omega arith) kept)
  where
    all : length (s ++ (c ∷ b)) ≡ length s + suc (length b)
    all = length-append s (c ∷ b)

    short : leb (buffer_size + 1) (length (s ++ (c ∷ b))) ≡ false
    short = ground arith

    filled : (length (s ++ (c ∷ b)) == 0) ≡ false
    filled = ground (arith, all)

    last : length (s ++ (c ∷ b)) - 1 ≡ length b + length s
    last = omega (arith, all)

    kept : take (length s + 1) (s ++ (c ∷ b)) ≡ s ++ (c ∷ [])
    kept = take-append_ge (length s + 1) 1 s (c ∷ b) refl

-- rsystem with a connection and a command of 1 to 4096 blanks: the loop over the trailing blanks
-- runs on in front of the buffer.
pub rsystem-Blanks :
    (c : ℕ) (b : Bytes) (rs : List Reply)
    → Blanks (c ∷ b)
    → length (c ∷ b) ≤ buffer_size
    → rsystem true true (fits (c ∷ b)) written rs ≡ (aborted, none)
unfolding rsystem run
rsystem-Blanks c b rs h room =
    rw (short, filled, trim-Blanks (c ∷ b) (length (c ∷ b) - 1) h (omega arith)) refl
  where
    short : leb (buffer_size + 1) (length (c ∷ b)) ≡ false
    short = ground arith

    filled : (length (c ∷ b) == 0) ≡ false
    filled = ground arith
