-- ===== src/Tool/Cmdline.antt =====
-- The command lines of the tool: `pdip_split_cmdline` of pdip.c and the table that it fills. The line
-- is a C string without its NUL. The words are slices of it, which end at the blank that the code
-- overwrites with a NUL, or else at the end of the line.
pub mod Words
pub mod Safe
pub mod Tests
use win_pdip.Prelude.{
  ℕ, zero, suc, ◌+◌, Bool, true, false, not, ◌&&◌, ◌||◌, List, [], ◌∷◌, ◌++◌, Bytes, length, ltb,
  leb, ◌==◌, if◌then◌else◌,
}

-- `pdip_argv` up to its terminating null, of `pdip_argc` words, and `pdip_argv_nb`.
pub record Table : Type 0 where
  pub argv : List Bytes
  pub argv_nb : ℕ

-- How a function on the table ends: with its return code, 0 or -1, or on a failed assertion.
pub data Rc : Type 0 where
  rc_0 rc_error : Rc

pub data Split : Type 0 where
  done : Rc → Table → Split
  aborted : Split

-- `pdip_free_argv`
abbrev pub free_argv : Table → Table
free_argv t = record { argv = []; argv_nb = 0 }

-- `pdip_reset_argv`: without a table there has to be no word.
abbrev pub reset_argv : Table → Table
reset_argv t = record { argv = []; argv_nb = t.argv_nb }

-- `pdip_new_argv`, and what follows; `realloc` and `malloc` are taken to give memory, since else the
-- tool exits.
abbrev pub new_argv : Bytes → Table → (Table → Split) → Split
new_argv str t k =
    if ltb 0 t.argv_nb
    then (if ltb (length t.argv) t.argv_nb
        then k (record {
          argv = t.argv ++ (str ∷ []);
          argv_nb = if length t.argv + 1 == t.argv_nb then t.argv_nb + 1 else t.argv_nb;
        })
        else aborted)
    else if length t.argv == 0
    then k (record { argv = str ∷ []; argv_nb = 2 })
    else aborted

-- `isspace`, in the C locale
abbrev pub isspace : ℕ → Bool
isspace c = c == b' ' || leb 9 c && leb c 13

abbrev pub is_letter : ℕ → Bool
is_letter c = c == b'_' || leb b'A' c && leb c b'Z' || leb b'a' c && leb c b'z'

abbrev pub is_name : ℕ → Bool
is_name c = is_letter c || leb b'0' c && leb c b'9'

-- The end of the line or a comment, `PDIP_COMMENT`.
abbrev pub is_comment : ℕ → Bool
is_comment c = c == b'#'

-- Where the loops stand: between the parameters, in a word, in a string, behind a backslash there,
-- or behind its closing double quote; with the bytes from the start of the word until there.
pub data Place : Type 0 where
  next_param : Place
  word state_1 state_2 behind_string : Bytes → Place

-- From `next_param` on.
unfoldable pub scan : Place → Bytes → Table → Split
scan next_param [] t = done rc_0 t
scan next_param (c ∷ cs) t =
    let skip = scan next_param cs t in
    let in_string = scan (state_1 (c ∷ [])) cs t in
    let in_word = scan (word (c ∷ [])) cs t in
    if isspace c
    then skip
    else if is_comment c
    then done rc_0 t
    else if c == b'"'
    then in_string
    else in_word
scan (word w) [] t = new_argv w t (λ u. done rc_0 u)
scan (word w) (c ∷ cs) t =
    let more = scan (word (w ++ (c ∷ []))) cs t in
    if isspace c
    then new_argv w t (λ u. scan next_param cs u)
    else if is_comment c
    then new_argv (w ++ (c ∷ cs)) t (λ u. done rc_0 u)
    else more
scan (state_1 w) [] t = new_argv w t (λ u. done rc_error u)
scan (state_1 w) (c ∷ cs) t =
    let close = scan (behind_string (w ++ (c ∷ []))) cs t in
    let inhibited = scan (state_2 (w ++ (c ∷ []))) cs t in
    let more = scan (state_1 (w ++ (c ∷ []))) cs t in
    if c == b'"' then close else if c == b'\\' then inhibited else more
scan (state_2 w) [] t = new_argv w t (λ u. done rc_error u)
scan (state_2 w) (c ∷ cs) t = scan (state_1 (w ++ (c ∷ []))) cs t
scan (behind_string w) [] t = new_argv w t (λ u. done rc_0 u)
scan (behind_string w) (c ∷ cs) t =
    if is_comment c
    then new_argv (w ++ (c ∷ cs)) t (λ u. done rc_0 u)
    else if isspace c
    then new_argv w t (λ u. scan next_param cs u)
    else new_argv (w ++ (c ∷ cs)) t (λ u. done rc_error u)

-- The rest of the first word, with its bytes until there.
unfoldable pub command : Bytes → Bytes → Table → Split
unfolding scan
command w [] t = new_argv w t (λ u. done rc_0 u)
command w (c ∷ cs) t =
    let more = command (w ++ (c ∷ [])) cs t in
    if is_name c
    then more
    else if is_comment c
    then new_argv (w ++ (c ∷ cs)) t (λ u. done rc_0 u)
    else if isspace c
    then new_argv w t (λ u. scan next_param cs u)
    else new_argv (w ++ (c ∷ cs)) t (λ u. done rc_error u)

-- `pdip_split_cmdline`
unfoldable pub split_cmdline : Bytes → Table → Split
unfolding command
split_cmdline [] t = done rc_0 t
split_cmdline (c ∷ cs) t =
    let skip = split_cmdline cs t in
    if isspace c
    then skip
    else if is_comment c
    then done rc_0 t
    else if is_letter c
    then command (c ∷ []) cs t
    else done rc_error t
