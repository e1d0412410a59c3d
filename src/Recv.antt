-- ===== src/Recv.antt =====
-- Receiving data: `pdip_recv` of pdip_lib.c.
pub mod Machine
pub mod Steps
pub mod Strings
pub mod Invariant
pub mod Room
pub mod Reading
pub mod Keeping
pub mod Matching
pub mod Flushing
pub mod Lines
pub mod Returns
pub mod Rounds
pub mod Calls
pub mod Tests
use win_pdip.Prelude.{
  ℕ, zero, suc, ◌+◌, ◌-◌, Bool, true, false, not, ◌&&◌, ◌||◌, Option, none, some, List, [], ◌∷◌,
  Bytes, length, ltb, ◌==◌, if◌then◌else◌,
}
use win_pdip.Outcome.{Result, ok, err, einval, eperm}
use win_pdip.Recv.Machine.{
  Buf, null_buf, ReadReply, interrupted, failed, bytes, World, Outcome, done, aborted, waiting,
  out_of_fuel, ◌>>=◌, require, is_null,
}
use win_pdip.Recv.Steps.{
  Rc, rc_0, rc_1, rc_error, read, enlarge, lost_user, store, read_until_timeout, flush_internal,
  flush_outstanding, look_for_regex,
}

-- PDIP_RECV_FOUND, PDIP_RECV_TIMEOUT, PDIP_RECV_DATA and PDIP_RECV_ERROR
pub data Code : Type 0 where
  found timeout received failure : Code

-- How a round of a loop ends: by `goto end_regex`, or by another round.
pub data Turn : Type 0 where
  leave : Code → Turn
  again : Turn

-- What both branches with no timeout do with the answer of `pdip_read`: no bytes is a failed
-- assertion, and the bytes stand at the start of the user's buffer.
unfoldable pub receive_reply : World → Option (Result Bytes × List ReadReply) → Outcome Rc
unfolding store
receive_reply w none = waiting
receive_reply w (some (ok bs, rs)) = require (ltb 0 (length bs)) (
    store bs (record w { reads = rs; user = record { mem = w.user.mem; sz = w.user.sz; len = 0 } })
      w.user.mem
    >>= λ _ u. done rc_0 u)
receive_reply w (some (err e, rs)) = done rc_error (record w { reads = rs; errno = e })

unfoldable pub receive_into : World → Option World → Outcome Rc
unfolding receive_reply read
receive_into w none = done rc_error (lost_user w)
receive_into w (some v) = receive_reply v (read v.reads (v.user.sz - 1))

-- `pdip_read` into the user's buffer, enlarged before, with no timeout. There `*data_sz` is 0.
unfoldable pub receive_block : ℕ → World → Outcome Rc
unfolding enlarge receive_into
receive_block increment w = receive_into w (enlarge increment w)

-- With no regular expression and a timeout.
abbrev plain_timed : ℕ → World → Outcome Code
plain_timed increment w = read_until_timeout increment w >>= λ rc v. elim rc [
  | rc_0 ↦ done (if ltb 0 v.user.len then received else timeout) v
  | rc_error ↦ done (if ltb 0 v.user.len then received else failure) v
  | rc_1 ↦ aborted
]

abbrev plain_blocking : ℕ → World → Outcome Code
plain_blocking increment w =
    receive_block increment w >>= λ rc v. elim rc [ rc_0 ↦ done received v | _ ↦ done failure v ]

-- `pdip_recv` with no regular expression.
unfoldable pub recv_plain : ℕ → Bool → World → Outcome Code
recv_plain increment timed w = flush_internal w >>= λ rc v. elim rc [
  | rc_error ↦ done failure v
  | _ ↦
      if ltb 0 v.user.len
      then done received v
      else if timed
      then plain_timed increment v
      else plain_blocking increment v
]

unfoldable pub rounds : ℕ → (World → Outcome Turn) → World → Outcome Code
rounds zero round w = out_of_fuel
rounds (suc fuel) round w =
    round w >>= λ t v. elim t [ leave c ↦ done c v | again ↦ rounds fuel round v ]

-- The rounds that the recorded answers can feed, at most.
unfoldable pub fuel_for : List ReadReply → ℕ
fuel_for [] = 0
fuel_for (bytes bs ∷ rs) = fuel_for rs + length bs + 1
fuel_for (_ ∷ rs) = fuel_for rs + 1

module _ (increment : ℕ) (on_the_flow : Bool) (regexec : Bytes → Option ℕ) where
  -- "Trying an intermediate return of outstanding data"
  abbrev on_flow : World → Outcome Turn
  on_flow w = flush_outstanding w >>= λ rc v. elim rc [
    | rc_0 ↦ done (leave received) v
    | rc_1 ↦ done again v
    | rc_error ↦ done (leave failure) v
  ]

  -- "This is a scarce case where we received data and the timeout dropped to 0."
  abbrev late : World → Outcome Turn
  late w =
      if on_the_flow && ltb 0 w.kept.len
      then (flush_internal w >>= λ rc v. elim rc [
        | rc_0 ↦ done (leave received) v
        | _ ↦ done (leave failure) v
      ])
      else done (leave timeout) w

  -- Data have been read: the search, and what follows if it fails.
  unfoldable pub timed_search : World → Outcome Turn
  timed_search w = look_for_regex regexec w >>= λ rc v. elim rc [
    | rc_0 ↦ done (leave found) v
    | rc_1 ↦ if not (v.left == 0) then (if on_the_flow then on_flow v else done again v) else late v
    | rc_error ↦ done (leave failure) v
  ]

  -- From `read_again` on.
  unfoldable pub timed_round : World → Outcome Turn
  timed_round w = read_until_timeout increment w >>= λ rc v. elim rc [
    | rc_0 ↦
        if ltb 0 v.user.len then timed_search v else require (v.left == 0) (done (leave timeout) v)
    | rc_error ↦ done (leave (if ltb 0 v.user.len then received else failure)) v
    | rc_1 ↦ aborted
  ]

  -- The body of `while(1)`.
  unfoldable pub blocking_round : World → Outcome Turn
  blocking_round w = receive_block increment w >>= λ rc v. elim rc [
    | rc_0 ↦ look_for_regex regexec v >>= λ rc u. elim rc [
      | rc_0 ↦ done (leave found) u
      | rc_1 ↦ if on_the_flow then on_flow u else done again u
      | rc_error ↦ done (leave failure) u
    ]
    | _ ↦ done (leave failure) v
  ]

  -- `pdip_recv` with a regular expression that has been compiled.
  unfoldable pub recv_regex : Bool → World → Outcome Code
  recv_regex timed w = look_for_regex regexec w >>= λ rc v. elim rc [
    | rc_0 ↦ done found v
    | _ ↦
        if timed
        then rounds (length v.selects + 1) timed_round v
        else rounds (fuel_for v.reads + 1) blocking_round v
  ]

-- Which of the pointers given to `pdip_recv` are null, and whether `pty_master` is open.
pub record Call : Type 0 where
  pub no_data_sz : Bool
  pub no_display : Bool
  pub no_display_sz : Bool
  pub no_ctx : Bool
  pub timed : Bool
  pub open_master : Bool

-- "Some coherency checks": a size with a null pointer, or a pointer with no size.
abbrev pub incoherent : Buf → Bool
incoherent b = not (b.sz == 0) && is_null b.mem || b.sz == 0 && not (is_null b.mem)

-- The regular expressions are the system's: `regcomp` compiles a pattern into its `regexec`.
module _ {Pattern : Type 0} (regcomp : Pattern → Option (Bytes → Option ℕ)) where
  unfoldable pub recv_compiled : ℕ → Bool → Bool → Option (Bytes → Option ℕ) → World → Outcome Code
  recv_compiled increment flow timed none w = done failure (record w { errno = einval })
  recv_compiled increment flow timed (some regexec) w = recv_regex increment flow regexec timed w

  unfoldable pub recv_pattern : ℕ → Bool → Bool → Option Pattern → World → Outcome Code
  unfolding recv_compiled
  recv_pattern increment flow timed none w = recv_plain increment timed w
  recv_pattern increment flow timed (some pattern) w =
      recv_compiled increment flow timed (regcomp pattern) w

  -- `pdip_recv`; `flow` is the flag PDIP_FLAG_RECV_ON_THE_FLOW of the context.
  unfoldable pub recv : ℕ → Bool → Call → Option Pattern → World → Outcome Code
  unfolding recv_pattern
  recv increment flow call pattern w =
      if call.no_data_sz
      then done failure (record w { errno = einval })
      else (let v = record w { user = record { mem = w.user.mem; sz = w.user.sz; len = 0 } } in
          if call.no_display || call.no_display_sz || call.no_ctx
          then done failure (record v { errno = einval })
          else if incoherent w.user
          then done failure (record v { errno = einval })
          else if not call.open_master
          then done failure (record v { errno = eperm })
          else recv_pattern increment flow call.timed pattern v)
