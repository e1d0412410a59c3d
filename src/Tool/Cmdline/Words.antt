-- ===== src/Tool/Cmdline/Words.antt =====
-- A command line that is written from its words.
use win_pdip.Prelude.{
  ℕ, ◌+◌, ◌<◌, ◌≡◌, ◌⊎◌, inl, inr, refl, sym, ap, ◌∙◌, true, false, Bool-cases, List, [], ◌∷◌, ◌++◌,
  Bytes, length, ltb, ◌==◌, if◌then◌else◌, map, arith, append_assoc, append-nil, length-append,
}
use win_pdip.Tool.Params.Quoting.{quoted, is_special}
use win_pdip.Tool.Cmdline.{
  Table, rc_0, Split, done, new_argv, isspace, is_letter, is_name, is_comment, next_param, word,
  state_1, behind_string, scan, command, split_cmdline,
}

-- There is no table, or it has room for one word more and the terminating null.
pub record IsTable (t : Table) : Type 0 where
  pub room : ((t.argv_nb ≡ 0) × (length t.argv ≡ 0)) ⊎ (length t.argv < t.argv_nb)

-- The table with a word more.
pub record Added (t : Table) (w : Bytes) (u : Table) : Type 0 where
  pub valid : IsTable u
  pub words : u.argv ≡ t.argv ++ (w ∷ [])

empty_list : (xs : List Bytes) → length xs ≡ 0 → xs ≡ []
empty_list [] h = refl
empty_list (x ∷ xs) h = absurd (omega arith)

-- `pdip_new_argv` fails on no assertion.
pub new_argv-Added :
    (w : Bytes) (t : Table) (k : Table → Split)
    → IsTable t
    → (u : Table) × (new_argv w t k ≡ k u) × Added t w u
new_argv-Added w t k v = elim v.room [
  | inl none ↦
      let no_table : ltb 0 t.argv_nb ≡ false = ground (arith, none.0) in
      let no_word : (length t.argv == 0) ≡ true = ground (arith, none.1) in
      (
        record { argv = w ∷ []; argv_nb = 2 },
        rw (no_table, no_word) refl,
        record {
          valid = record { room = inr (omega arith) };
          words = rw (empty_list t.argv none.1) refl;
        },
      )
  | inr some_room ↦
      let table : ltb 0 t.argv_nb ≡ true = ground (arith, some_room) in
      let place : ltb (length t.argv) t.argv_nb ≡ true = ground (arith, some_room) in
      let grown : ℕ = if length t.argv + 1 == t.argv_nb then t.argv_nb + 1 else t.argv_nb in
      (
        record { argv = t.argv ++ (w ∷ []); argv_nb = grown },
        rw (table, place) refl,
        record {
          valid = record { room = inr (ground (arith, length-append t.argv (w ∷ []), some_room)) };
          words = refl;
        },
      )
]

-- The bytes of a bare word, behind the first one.
abbrev pub Bare : Bytes → Type 0
Bare [] = Unit
Bare (c ∷ cs) = (isspace c ≡ false) × (is_comment c ≡ false) × Bare cs

-- A parameter: a bare word, or a string with its bytes.
pub data Arg : Type 0 where
  bare : ℕ → Bytes → Arg
  string : Bytes → Arg

abbrev pub text : Arg → Bytes
text (bare c cs) = c ∷ cs
text (string s) = b'"' ∷ quoted s

abbrev pub IsArg : Arg → Type 0
IsArg (bare c cs) = Bare (c ∷ cs) × ((c == b'"') ≡ false)
IsArg (string s) = Unit

abbrev pub AreArgs : List Arg → Type 0
AreArgs [] = Unit
AreArgs (a ∷ more) = IsArg a × AreArgs more

-- The parameters, each behind a blank.
unfoldable pub params : List Arg → Bytes
params [] = []
params (a ∷ more) = b' ' ∷ (text a ++ params more)

scan-Bare :
    (w cs rest : Bytes) (t : Table)
    → Bare cs
    → scan (word w) (cs ++ rest) t ≡ scan (word (w ++ cs)) rest t
unfolding scan
scan-Bare w [] rest t h = rw append-nil refl
scan-Bare w (c ∷ cs) rest t h =
    rw (h.0, h.1)
      (scan-Bare (w ++ (c ∷ [])) cs rest t h.2
        ∙ ap (λ (x : Bytes). scan (word x) rest t) (append_assoc w (c ∷ []) cs))

scan-quoted :
    (w s rest : Bytes) (t : Table)
    → scan (state_1 w) (quoted s ++ rest) t ≡ scan (behind_string (w ++ quoted s)) rest t
unfolding scan quoted
scan-quoted w [] rest t = refl
scan-quoted w (c ∷ cs) rest t = elim (Bool-cases (is_special c)) [
  | inl special ↦ rw special (
      scan-quoted ((w ++ (b'\\' ∷ [])) ++ (c ∷ [])) cs rest t
      ∙ ap (λ (x : Bytes). scan (behind_string x) rest t)
          (append_assoc (w ++ (b'\\' ∷ [])) (c ∷ []) (quoted cs)
            ∙ append_assoc w (b'\\' ∷ []) (c ∷ quoted cs)))
  | inr plain ↦
      let no_quote : (c == b'"') ≡ false = ground (arith, plain) in
      let no_backslash : (c == b'\\') ≡ false = ground (arith, plain) in
      rw (plain, no_quote, no_backslash)
        (scan-quoted (w ++ (c ∷ [])) cs rest t
          ∙ ap (λ (x : Bytes). scan (behind_string x) rest t) (append_assoc w (c ∷ []) (quoted cs)))
]

-- The end of a word, in front of more parameters.
scan_end :
    (w : Bytes) (more : List Arg) (t : Table)
    → scan (word w) (params more) t ≡ new_argv w t (λ u. scan next_param (params more) u)
unfolding scan params
scan_end w [] t = refl
scan_end w (a ∷ more) t = refl

scan_string_end :
    (w : Bytes) (more : List Arg) (t : Table)
    → scan (behind_string w) (params more) t ≡ new_argv w t (λ u. scan next_param (params more) u)
unfolding scan params
scan_string_end w [] t = refl
scan_string_end w (a ∷ more) t = refl

-- One parameter.
scan_arg :
    (a : Arg) (more : List Arg) (t : Table)
    → IsArg a
    → scan next_param (text a ++ params more) t
      ≡ new_argv (text a) t (λ u. scan next_param (params more) u)
unfolding scan
scan_arg (bare c cs) more t h =
    rw (h.0.0, h.0.1, h.1) (scan-Bare (c ∷ []) cs (params more) t h.0.2 ∙ scan_end (c ∷ cs) more t)
scan_arg (string s) more t h =
    scan-quoted (b'"' ∷ []) s (params more) t ∙ scan_string_end (b'"' ∷ quoted s) more t

-- All of them, behind the words in the table.
pub record Filled (t : Table) (ws : List Bytes) (u : Table) : Type 0 where
  pub valid : IsTable u
  pub words : u.argv ≡ t.argv ++ ws

skip_blank :
    (a : Arg) (more : List Arg) (t : Table)
    → scan next_param (params (a ∷ more)) t ≡ scan next_param (text a ++ params more) t
unfolding scan params
skip_blank a more t = refl

scan-params :
    (more : List Arg) (t : Table)
    → AreArgs more
    → IsTable t
    → (u : Table) × (scan next_param (params more) t ≡ done rc_0 u) × Filled t (map text more) u
scan-params [] t h v =
    unfold scan params in (t, refl, record { valid = v; words = sym (append-nil t.argv) })
scan-params (a ∷ more) t h v =
    let (t1, e, r) = new_argv-Added (text a) t (λ u. scan next_param (params more) u) v in
    let (u, f, s) = scan-params more t1 h.1 r.valid in
    (
      u,
      skip_blank a more t ∙ scan_arg a more t h.0 ∙ e ∙ f,
      record {
        valid = s.valid;
        words =
            s.words
            ∙ ap (λ (ws : List Bytes). ws ++ map text more) r.words
            ∙ append_assoc t.argv (text a ∷ []) (map text more);
      },
    )

abbrev pub Name : Bytes → Type 0
Name [] = Unit
Name (c ∷ cs) = (is_name c ≡ true) × Name cs

-- The name of a command: a letter or an underscore, with digits behind it too.
pub record IsCommand (c : ℕ) (cs : Bytes) : Type 0 where
  pub first : is_letter c ≡ true
  pub others : Name cs

letter_not_blank : (c : ℕ) → is_letter c ≡ true → (isspace c ≡ false) × (is_comment c ≡ false)
letter_not_blank c h = (ground arith, ground arith)

command_goes_on :
    (w cs rest : Bytes) (t : Table) → Name cs → command w (cs ++ rest) t ≡ command (w ++ cs) rest t
unfolding command
command_goes_on w [] rest t h = rw append-nil refl
command_goes_on w (c ∷ cs) rest t h = rw h.0 (
    command_goes_on (w ++ (c ∷ [])) cs rest t h.1
    ∙ ap (λ (x : Bytes). command x rest t) (append_assoc w (c ∷ []) cs))

command_end :
    (w : Bytes) (more : List Arg) (t : Table)
    → command w (params more) t ≡ new_argv w t (λ u. scan next_param (params more) u)
unfolding command scan params
command_end w [] t = refl
command_end w (a ∷ more) t = refl

split_command :
    (c : ℕ) (cs rest : Bytes) (t : Table)
    → IsCommand c cs
    → split_cmdline (c ∷ (cs ++ rest)) t ≡ command (c ∷ cs) rest t
unfolding split_cmdline
split_command c cs rest t h =
    let (no_blank, no_comment) = letter_not_blank c h.first in
    rw (no_blank, no_comment, h.first) (command_goes_on (c ∷ []) cs rest t h.others)

-- pdip_split_cmdline on a line that is made of a command name and of parameters, each a bare word
-- or a string in double quotes with its special characters inhibited, fills a well-formed table
-- with exactly the name and these parameters, behind the words that are there, and returns 0.
pub split_cmdline-params :
    (c : ℕ) (cs : Bytes) (more : List Arg) (t : Table)
    → IsCommand c cs
    → AreArgs more
    → IsTable t
    → (u : Table) × (split_cmdline (c ∷ (cs ++ params more)) t ≡ done rc_0 u)
      × Filled t ((c ∷ cs) ∷ map text more) u
split_cmdline-params c cs more t h k v =
    let (t1, e, r) = new_argv-Added (c ∷ cs) t (λ u. scan next_param (params more) u) v in
    let (u, f, s) = scan-params more t1 k r.valid in
    (
      u,
      split_command c cs (params more) t h ∙ command_end (c ∷ cs) more t ∙ e ∙ f,
      record {
        valid = s.valid;
        words =
            s.words
            ∙ ap (λ (ws : List Bytes). ws ++ map text more) r.words
            ∙ append_assoc t.argv ((c ∷ cs) ∷ []) (map text more);
      },
    )

command_comment :
    (w rest : Bytes) (t : Table)
    → command w (b'#' ∷ rest) t ≡ new_argv (w ++ (b'#' ∷ rest)) t (λ u. done rc_0 u)
unfolding command
command_comment w rest t = refl

pub split_cmdline_comment :
    (c : ℕ) (cs rest : Bytes) (t : Table)
    → IsCommand c cs
    → IsTable t
    → (u : Table) × (split_cmdline (c ∷ (cs ++ (b'#' ∷ rest))) t ≡ done rc_0 u)
      × Filled t ((c ∷ (cs ++ (b'#' ∷ rest))) ∷ []) u
split_cmdline_comment c cs rest t h v =
    let (u, e, r) = new_argv-Added (c ∷ (cs ++ (b'#' ∷ rest))) t (λ u. done rc_0 u) v in
    (
      u,
      split_command c cs (b'#' ∷ rest) t h ∙ command_comment (c ∷ cs) rest t ∙ e,
      record { valid = r.valid; words = r.words },
    )
