-- ===== src/Recv/Steps.antt =====
-- The internal functions that `pdip_recv` is made of: `pdip_read`, `pdip_read_until_timeout`,
-- `pdip_flush_internal`, `pdip_flush_outstanding`, `pdip_append_to_outstanding` and
-- `pdip_look_for_regex` of pdip_lib.c.
use win_pdip.Prelude.{
  ℕ, zero, suc, ◌+◌, ◌-◌, true, false, not, ◌&&◌, ◌||◌, Option, none, some, List, [], ◌∷◌, ◌++◌,
  Bytes, length, get_or, set, take, drop, write_at, ltb, leb, ◌==◌, if◌then◌else◌,
}
use win_pdip.Outcome.{Result, ok, err, enomem}
use win_pdip.Recv.Machine.{
  Buf, null_buf, ReadReply, bytes, SelectReply, elapsed, ready, World, Outcome, done, aborted,
  waiting, ◌>>=◌, require, next_block, grown, is_null, is_nul, c_string,
}

-- The return codes 0, 1 and -1 of the internal functions.
pub data Rc : Type 0 where
  rc_0 rc_1 rc_error : Rc

-- `pdip_read`: the loop goes on at EINTR. `none`: it blocks. `read` takes `l` bytes at most, and
-- the terminal keeps the others.
unfoldable pub read : List ReadReply → ℕ → Option (Result Bytes × List ReadReply)
read [] l = none
read (ReadReply.interrupted ∷ rs) l = read rs l
read (ReadReply.failed e ∷ rs) l = some (err e, rs)
read (bytes bs ∷ rs) l =
    some (ok (take l bs), if ltb l (length bs) then bytes (drop l bs) ∷ rs else rs)

-- "If there is not enough space in the buffer, enlarge it": `none` if `realloc` fails.
unfoldable pub enlarge : ℕ → World → Option World
enlarge increment w =
    if ltb (w.user.sz - w.user.len) increment
    then (let (answer, rest) = next_block w.heap in
        elim answer [
          | none ↦ none
          | some j ↦ some (record w {
            user = record {
              mem = some (grown w.user.mem (w.user.sz + increment) j);
              sz = w.user.sz + increment;
              len = w.user.len;
            };
            heap = rest;
          })
        ])
    else some w

-- The state after a failed `realloc` of the user's buffer.
abbrev pub lost_user : World → World
lost_user w = record w { user = null_buf; errno = enomem; heap = (next_block w.heap).1 }

-- Store `bs` behind the data of the user's buffer, and a NUL behind them.
unfoldable pub store : Bytes → World → Option Bytes → Outcome (Unit {0})
store bs w none = aborted
store bs w (some b) = require (ltb (w.user.len + length bs) (length b)) (
    done tt (record w {
      user = record {
        mem = some (set (write_at b w.user.len bs) (w.user.len + length bs) 0);
        sz = w.user.sz;
        len = w.user.len + length bs;
      };
    }))

-- What `pdip_read_until_timeout` does with the answer of `pdip_read`.
unfoldable pub fill_reply : World → Option (Result Bytes × List ReadReply) → Outcome Rc
unfolding store
fill_reply w none = waiting
fill_reply w (some (ok bs, rs)) =
    store bs (record w { reads = rs }) w.user.mem >>= λ _ u. done rc_0 u
fill_reply w (some (err e, rs)) =
    store [] (record w { reads = rs; errno = e }) w.user.mem >>= λ _ u. done rc_error u

unfoldable pub fill_into : World → Option World → Outcome Rc
unfolding fill_reply read
fill_into w none = done rc_error (lost_user w)
fill_into w (some v) = fill_reply v (read v.reads (v.user.sz - v.user.len - 1))

-- The case of `pdip_read_until_timeout` where data are there.
unfoldable pub fill : ℕ → World → Outcome Rc
unfolding enlarge fill_into
fill increment w = fill_into w (enlarge increment w)

-- `pdip_read_until_timeout`, by recursion on the answers of `select`.
unfoldable pub until_timeout : ℕ → World → List SelectReply → Outcome Rc
until_timeout increment w [] = waiting
until_timeout increment w (SelectReply.interrupted t ∷ ss) =
    until_timeout increment (record w { left = t }) ss
until_timeout increment w (SelectReply.failed e ∷ ss) =
    done rc_error (record w { selects = ss; errno = e })
until_timeout increment w (elapsed ∷ ss) = done rc_0 (record w { selects = ss; left = 0 })
until_timeout increment w (ready t ∷ ss) = fill increment (record w { selects = ss; left = t })

abbrev pub read_until_timeout : ℕ → World → Outcome Rc
read_until_timeout increment w = until_timeout increment w w.selects

-- `pdip_flush_internal`
unfoldable pub flush_all : World → Option Bytes → Outcome Rc
flush_all w none =
    require (w.kept.len == 0 && w.kept.sz == 0)
      (done rc_0 (record w { user = record { mem = w.user.mem; sz = w.user.sz; len = 0 } }))
flush_all w (some b) =
    require (w.user.sz == 0 || not (is_null w.user.mem)) (
      require (is_nul (some b) w.kept.len)
        (done rc_0 (record w { user = w.kept; kept = null_buf })))

abbrev pub flush_internal : World → Outcome Rc
flush_internal w = flush_all w w.kept.mem

-- The loop that goes back from index `i` to a newline, or to the first byte.
unfoldable pub last_newline : Bytes → ℕ → ℕ
last_newline b zero = zero
last_newline b (suc i) = elim (get_or b (suc i) 256 == b'\n') [
  | true ↦ suc i
  | false ↦ last_newline b i
]

-- The complete lines, up to index `q`, which gets a NUL.
abbrev pub lines : World → Bytes → ℕ → Buf
lines w b q = record { mem = some (set b q 0); sz = w.kept.sz; len = q }

-- The remaining data are duplicated; the answer is the allocator's to `strdup`.
unfoldable pub split_rest : World → Bytes → ℕ → Option ℕ → Outcome Rc
split_rest w b q none = done rc_error (record w { errno = enomem; heap = (next_block w.heap).1 })
split_rest w b q (some j) = require (length (c_string (drop q b)) == w.kept.len - q) (
    done rc_0 (record w {
      user = lines w b q;
      kept = record {
        mem = some (c_string (drop q b) ++ 0 ∷ []);
        sz = w.kept.len - q + 1;
        len = w.kept.len - q;
      };
      heap = (next_block w.heap).1;
    }))

-- What `pdip_flush_outstanding` does once the index `q` behind the last newline is known.
unfoldable pub split_lines : World → Bytes → ℕ → Outcome Rc
unfolding split_rest
split_lines w b q =
    if q == w.kept.len
    then done rc_0 (record w { user = lines w b q; kept = null_buf })
    else split_rest w b q (next_block w.heap).0

unfoldable pub flush_lines : World → Option Bytes → Outcome Rc
flush_lines w none = aborted
flush_lines w (some b) =
    if w.kept.len == 0
    then done rc_1 w
    else require (is_nul (some b) w.kept.len) (
        let p = last_newline b (w.kept.len - 1) in
        if get_or b p 256 == b'\n' then split_lines w b (p + 1) else done rc_1 w)

-- `pdip_flush_outstanding`
abbrev pub flush_outstanding : World → Outcome Rc
flush_outstanding w = flush_lines w w.kept.mem

-- The `memcpy` of `pdip_append_to_outstanding`, with the terminating NUL, into a block that starts
-- with the outstanding data. The user's block is not freed.
unfoldable pub copy_onto : World → Bytes → ℕ → Option Bytes → Outcome Rc
copy_onto w b sz none = aborted
copy_onto w b sz (some d) =
    require (ltb (w.kept.len + w.user.len) (length b) && ltb w.user.len (length d)) (
      done rc_0 (record w {
        kept = record {
          mem = some (write_at b w.kept.len (take (w.user.len + 1) d));
          sz = sz;
          len = w.kept.len + w.user.len;
        };
        user = null_buf;
      }))

unfoldable pub append_onto : World → Option Bytes → Outcome Rc
unfolding copy_onto
append_onto w none =
    require (w.kept.sz == 0 && w.kept.len == 0)
      (done rc_0 (record w { kept = w.user; user = null_buf }))
append_onto w (some b) =
    require (ltb 0 w.kept.sz && is_nul (some b) w.kept.len && leb w.kept.len w.kept.sz) (
      if ltb (w.kept.sz - (w.kept.len + 1)) w.user.len
      then (let (answer, rest) = next_block w.heap in
          elim answer [
            | none ↦ done rc_error (record w { kept = null_buf; errno = enomem; heap = rest })
            | some j ↦
                copy_onto (record w { heap = rest }) (grown (some b) (w.kept.sz + w.user.len) j)
                  (w.kept.sz + w.user.len) w.user.mem
          ])
      else copy_onto w b w.kept.sz w.user.mem)

-- `pdip_append_to_outstanding`
unfoldable pub append_to_outstanding : World → Outcome Rc
unfolding append_onto
append_to_outstanding w =
    if w.user.len == 0
    then done rc_0 w
    else require (ltb w.user.len w.user.sz && is_nul w.user.mem w.user.len)
        (append_onto w w.kept.mem)

-- "Skip the new line" where the match ends at offset 0.
abbrev pub end_of_match : Bytes → ℕ → ℕ
end_of_match b eo = if eo == 0 && get_or b 0 256 == b'\n' then 1 else eo

-- The user's buffer once the data behind the match, if any, is outstanding again.
unfoldable pub hand_over : World → Bytes → ℕ → Outcome Rc
hand_over w b eo =
    require (ltb eo (length b))
      (done rc_0 (record w { user = record { mem = some (set b eo 0); sz = w.user.sz; len = eo } }))

-- The block of `sz` bytes that the user gets, before its data are known.
abbrev pub whole : ℕ → Buf
whole sz = record { mem = none; sz = sz; len = 0 }

-- The data behind the match are duplicated and become outstanding; the number is the allocator's
-- answer. The result of `strdup` is not tested: a null pointer reaches the assertions of
-- `pdip_append_to_outstanding`.
unfoldable pub keep_rest : World → Bytes → ℕ → Option ℕ → Outcome Rc
keep_rest w b eo answer =
    let l = w.kept.len - eo in
    let copy : Option Bytes = elim answer [
      | none ↦ none
      | some j ↦ some (c_string (drop eo b) ++ 0 ∷ [])
    ] in
    append_to_outstanding (record w {
      kept = null_buf;
      user = record { mem = copy; sz = l + 1; len = l };
      heap = (next_block w.heap).1;
    })
    >>= λ rc v. elim rc [
      | rc_error ↦ done rc_error (record v { user = whole w.kept.sz })
      | _ ↦ hand_over (record v { user = whole w.kept.sz }) b eo
    ]

-- A match that ends at offset `eo`.
unfoldable pub cut_match : World → Bytes → ℕ → Outcome Rc
cut_match w b eo =
    require (is_nul (some b) w.kept.len && length (c_string (drop eo b)) == w.kept.len - eo) (
      if w.kept.len - eo == 0
      then hand_over (record w { kept = null_buf; user = whole w.kept.sz }) b eo
      else keep_rest w b eo (next_block w.heap).0)

-- What follows the answer of `regexec`, which is the end of the leftmost match.
unfoldable pub at_match : World → Bytes → Option ℕ → Outcome Rc
at_match w b none = done rc_1 w
at_match w b (some eo) = cut_match w b (end_of_match b eo)

-- The search in the outstanding data.
unfoldable pub search_kept : (Bytes → Option ℕ) → World → Option Bytes → Outcome Rc
search_kept regexec w none = aborted
search_kept regexec w (some b) = at_match w b (regexec (c_string b))

-- `pdip_look_for_regex`
unfoldable pub look_for_regex : (Bytes → Option ℕ) → World → Outcome Rc
look_for_regex regexec w =
    (if w.user.len == 0 then done rc_0 w else append_to_outstanding w) >>= λ rc v. elim rc [
      | rc_0 ↦ if ltb 0 v.kept.len then search_kept regexec v v.kept.mem else done rc_1 v
      | _ ↦ done rc_error v
    ]
