-- ===== src/Tool/Params/Quoting.antt =====
-- Strings written as parameters, and what is written to the buffer.
use win_pdip.Prelude.{
  ℕ, ◌+◌, ◌≤◌, ◌<◌, ◌≡◌, refl, ◌∙◌, ap, Bool, true, false, [], ◌∷◌, ◌++◌, Bytes, length, leb, ◌==◌,
  ◌||◌, if◌then◌else◌, Bool-cases, inl, inr, arith, length-append, append_assoc,
}
use win_pdip.Tool.Params.{
  Label, state_1, state_2, state_3, Formatted, formatted, refused, ctrl, escaped, format_from,
  format_params,
}

-- A byte that has a meaning of its own in a parameter.
abbrev pub is_special : ℕ → Bool
is_special c = c == b'"' || c == b'\\' || c == b'^'

abbrev pub escape : ℕ → Bytes → Bytes
escape c rest = if is_special c then b'\\' ∷ c ∷ rest else c ∷ rest

-- The text with its special bytes behind backslashes, and the closing double quote.
unfoldable pub quoted : Bytes → Bytes
quoted [] = b'"' ∷ []
quoted (c ∷ cs) = escape c (quoted cs)

abbrev pub is_refused : Formatted → Bool
is_refused (formatted w) = false
is_refused (refused w) = true

escaped_special : (c : ℕ) → is_special c ≡ true → escaped c ≡ c
escaped_special c e = ground arith

-- A byte of the string, where the buffer has room for it.
format_from-escape :
    (limit c : ℕ) (rest out : Bytes)
    → length out < limit
    → format_from limit state_1 (escape c rest) out
      ≡ format_from limit state_1 rest (out ++ (c ∷ []))
unfolding format_from
format_from-escape limit c rest out h =
    let room : leb limit (length out) ≡ false = ground arith in
    elim (Bool-cases (is_special c)) [
      | inl special ↦ rw (special, room) (rw (escaped_special c special) refl)
      | inr plain ↦ rw (plain, room) (ground arith)
    ]

-- Where it has none.
format_from_full :
    (limit c : ℕ) (cs out : Bytes)
    → limit ≤ length out
    → format_from limit state_1 (c ∷ cs) out ≡ refused out
unfolding format_from
format_from_full limit c cs out h =
    let full : leb limit (length out) ≡ true = ground arith in rw full refl

escape_full :
    (limit c : ℕ) (rest out : Bytes)
    → limit ≤ length out
    → format_from limit state_1 (escape c rest) out ≡ refused out
escape_full limit c rest out h = elim (Bool-cases (is_special c)) [
  | inl special ↦ rw special (format_from_full limit b'\\' (c ∷ rest) out h)
  | inr plain ↦ rw plain (format_from_full limit c rest out h)
]

quoted_cons : (c : ℕ) (cs : Bytes) → quoted (c ∷ cs) ≡ escape c (quoted cs)
unfolding quoted
quoted_cons c cs = refl

-- The text with room, behind what is in `out`.
format_from-fits :
    (limit : ℕ) (s out : Bytes)
    → length out + length s < limit
    → format_from limit state_1 (quoted s) out ≡ formatted (out ++ (s ++ (0 ∷ [])))
unfolding quoted
format_from-fits limit [] out h =
    let room : leb limit (length out) ≡ false = ground arith in unfold format_from in rw room refl
format_from-fits limit (c ∷ cs) out h =
    format_from-escape limit c (quoted cs) out (omega arith)
    ∙ format_from-fits limit cs (out ++ (c ∷ [])) (omega (arith, length-append out (c ∷ [])))
    ∙ ap formatted (append_assoc out (c ∷ []) (cs ++ (0 ∷ [])))

-- The text with no room.
format_from_refuses :
    (limit : ℕ) (s out : Bytes)
    → limit ≤ length out + length s
    → is_refused (format_from limit state_1 (quoted s) out) ≡ true
unfolding quoted
format_from_refuses limit [] out h =
    ap is_refused (format_from_full limit b'"' [] out (omega arith))
format_from_refuses limit (c ∷ cs) out h = elim (Bool-cases (leb limit (length out))) [
  | inl full ↦ ap is_refused (escape_full limit c (quoted cs) out (ground arith))
  | inr room ↦
      ap is_refused (format_from-escape limit c (quoted cs) out (ground arith))
      ∙ format_from_refuses limit cs (out ++ (c ∷ [])) (omega (arith, length-append out (c ∷ [])))
]

-- pdip_format_params on the parameter that puts a text in double quotes with its special
-- characters behind backslashes: where the text is shorter than the room, the call succeeds and
-- the output is the text and a NUL; else it fails.
pub format_params-quoted :
    (limit : ℕ) (s : Bytes)
    → (length s < limit → format_params limit (b'"' ∷ quoted s) ≡ formatted (s ++ (0 ∷ [])))
      × (limit ≤ length s → is_refused (format_params limit (b'"' ∷ quoted s)) ≡ true)
unfolding format_params
format_params-quoted limit s = (
  λ h. format_from-fits limit s [] (omega arith),
  λ h. format_from_refuses limit s [] (omega arith),
)

-- The bytes written, and with code 0 the NUL behind them.
abbrev pub Bounded : ℕ → Formatted → Type 0
Bounded limit (formatted w) = (s : Bytes) × (w ≡ s ++ (0 ∷ [])) × (length s < limit)
Bounded limit (refused w) = length w ≤ limit

format_from-Bounded :
    (limit : ℕ) (label : Label) (p out : Bytes)
    → length out ≤ limit
    → Bounded limit (format_from limit label p out)
unfolding format_from
format_from-Bounded limit label [] out h = h
format_from-Bounded limit state_1 (c ∷ cs) out h = elim (Bool-cases (leb limit (length out))) [
  | inl full ↦ rw full h
  | inr room ↦ rw room (elim (Bool-cases (c == b'"')) [
    | inl close ↦ rw close (out, refl, ground arith)
    | inr more ↦ rw more (elim (Bool-cases (c == b'\\')) [
      | inl backslash ↦ rw backslash (format_from-Bounded limit state_2 cs out h)
      | inr plain ↦ rw plain (elim (Bool-cases (c == b'^')) [
        | inl caret ↦ rw caret (format_from-Bounded limit state_3 cs out h)
        | inr copied ↦ rw copied (
            format_from-Bounded limit state_1 cs (out ++ (c ∷ []))
              (ground (arith, length-append out (c ∷ []))))
      ])
    ])
  ])
]
format_from-Bounded limit state_2 (c ∷ cs) out h = elim (Bool-cases (leb limit (length out))) [
  | inl full ↦ rw full h
  | inr room ↦ rw room (
      format_from-Bounded limit state_1 cs (out ++ (escaped c ∷ []))
        (ground (arith, length-append out (escaped c ∷ []))))
]
format_from-Bounded limit state_3 (c ∷ cs) out h = elim (Bool-cases (leb limit (length out))) [
  | inl full ↦ rw full h
  | inr room ↦ rw room (
      format_from-Bounded limit state_1 cs (out ++ (ctrl c ∷ []))
        (ground (arith, length-append out (ctrl c ∷ []))))
]

-- pdip_format_params on any parameter writes no more bytes than there is room for, and on success
-- they are fewer bytes than that with a NUL behind them.
pub format_params-Bounded : (limit : ℕ) (p : Bytes) → Bounded limit (format_params limit p)
unfolding format_params
format_params-Bounded limit [] = omega arith
format_params-Bounded limit (c ∷ cs) = elim (Bool-cases (c == b'"')) [
  | inl open_quote ↦ rw open_quote (format_from-Bounded limit state_1 cs [] (omega arith))
  | inr other ↦ rw other (omega arith)
]
