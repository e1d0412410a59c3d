-- ===== src/Tool/Params/Tests.antt =====
-- Parameters of the tool, and the theorems at them.
use win_pdip.Prelude.{◌≤◌, ◌<◌, ◌≡◌, refl, true, [], ◌∷◌, ◌++◌, Bytes}
use win_pdip.Tool.Params.{formatted, format_params, format_from}
use win_pdip.Tool.Params.Quoting.{
  quoted, is_refused, format_params-quoted, Bounded, format_params-Bounded,
}

-- a"^
abbrev awkward : Bytes
awkward = b'a' ∷ b'"' ∷ b'^' ∷ []

format_params-quoted_example :
    (3 < 8 → format_params 8 (b'"' ∷ quoted awkward) ≡ formatted (awkward ++ (0 ∷ [])))
    × (8 ≤ 3 → is_refused (format_params 8 (b'"' ∷ quoted awkward)) ≡ true)
format_params-quoted_example = format_params-quoted 8 awkward

format_params-Bounded_example : Bounded 2 (format_params 2 (b'"' ∷ b'a' ∷ b'b' ∷ b'"' ∷ []))
format_params-Bounded_example = format_params-Bounded 2 (b'"' ∷ b'a' ∷ b'b' ∷ b'"' ∷ [])

-- "^C\\n" is CONTROL C and a line feed; "^c" is no control character.
control_c :
    format_params 8 (b'"' ∷ b'^' ∷ b'C' ∷ b'\\' ∷ b'n' ∷ b'"' ∷ []) ≡ formatted (3 ∷ 10 ∷ 0 ∷ [])
unfolding format_params format_from
control_c = refl

lower_c : format_params 8 (b'"' ∷ b'^' ∷ b'c' ∷ b'"' ∷ []) ≡ formatted (b'#' ∷ 0 ∷ [])
unfolding format_params format_from
lower_c = refl
