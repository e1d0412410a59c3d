-- ===== src/Recv/Tests.antt =====
-- Runs of `pdip_recv` and its steps, and the theorems at them: a terminal on which a prompt arrives.
use win_pdip.Prelude.{
  ℕ, ◌+◌, ◌<◌, ◌≡◌, ◌⊎◌, refl, true, false, Option, none, some, List, [], ◌∷◌, Bytes, length, arith,
  ◌==◌, if◌then◌else◌, write_at,
}
use win_pdip.Outcome.{eio}
use win_pdip.Recv.Machine.{
  Buf, null_buf, ReadReply, bytes, elapsed, ready, World, Outcome, done, c_string,
}
use win_pdip.Recv.Steps.{
  until_timeout, flush_internal, flush_outstanding, append_to_outstanding, look_for_regex,
  search_kept, at_match, fill, append_onto, copy_onto, cut_match, fill_into, fill_reply, store,
  enlarge, read, hand_over, keep_rest,
}
use win_pdip.Recv.Invariant.{text, IsIdle, Good}
use win_pdip.Recv.Reading.{Filled, until_timeout-Filled}
use win_pdip.Recv.Lines.{Split, NoLine, flush_outstanding-Split}
use win_pdip.Recv.Flushing.{Flushed, flush_internal-Flushed}
use win_pdip.Recv.Calls.{IsAccepted, IsReady, PlainReturned, recv-none-Returned}
use win_pdip.Recv.{
  Code, found, Call, recv, recv_pattern, recv_compiled, recv_regex, rounds, timed_round,
  timed_search,
}

-- "a" and a newline outstanding, in a block of 8 bytes.
abbrev held : Buf
held = record { mem = some (b'a' ∷ b'\n' ∷ b'b' ∷ 0 ∷ 7 ∷ 7 ∷ 7 ∷ 7 ∷ []); sz = 8; len = 3 }

abbrev more : List ReadReply
more = bytes (b'c' ∷ b'$' ∷ b'd' ∷ []) ∷ []

abbrev start : World
start = record {
  kept = held;
  user = null_buf;
  left = 5;
  errno = eio;
  reads = more;
  selects = ready 3 ∷ elapsed ∷ [];
  heap = [];
}

start-IsIdle : IsIdle start
start-IsIdle = record {
  kept_holds = (refl, omega arith, refl, ground arith);
  user_fits = (refl, refl);
  user_empty = refl;
  reads_clean = (omega arith, ground arith, tt);
  heap_granted = tt;
}

-- The user's buffer holds "c$".
abbrev filled : World
filled = record {
  kept = held;
  user = record { mem = some (b'c' ∷ b'$' ∷ 0 ∷ 9 ∷ []); sz = 4; len = 2 };
  left = 5;
  errno = eio;
  reads = [];
  selects = [];
  heap = [];
}

-- The end of the first match of "\$".
abbrev behind : Option ℕ → Option ℕ
behind none = none
behind (some n) = some (n + 1)

unfoldable dollar : Bytes → Option ℕ
dollar [] = none
dollar (c ∷ cs) = let later = dollar cs in if c == b'$' then some 1 else behind later

abbrev call : Call
call = record {
  no_data_sz = false;
  no_display = false;
  no_display_sz = false;
  no_ctx = false;
  timed = true;
  open_master = true;
}

call-IsAccepted : IsAccepted call start.user
call-IsAccepted = record {
  data_sz = refl;
  display = refl;
  display_sz = refl;
  ctx = refl;
  coherent = refl;
  master = refl;
}

start-IsReady : IsReady start
start-IsReady = record {
  kept_holds = start-IsIdle.kept_holds;
  user_sized = tt;
  reads_clean = start-IsIdle.reads_clean;
  heap_granted = tt;
}

-- The only pattern is the dollar's.
abbrev compiled : Unit {0} → Option (Bytes → Option ℕ)
compiled tt = some dollar

-- The code and the texts of the two buffers.
abbrev result : Outcome Code → Option (Code × Bytes × Bytes)
result (done c v) = some (c, text v.user, text v.kept)
result _ = none

recv-none-Returned_example : Good (PlainReturned start) (recv compiled 1024 true call none start)
recv-none-Returned_example =
    recv-none-Returned compiled 1024 true call start (omega arith) call-IsAccepted start-IsReady

flush_outstanding-Split_example :
    Good (λ rc v. Split start rc v ⊎ NoLine start rc v) (flush_outstanding start)
flush_outstanding-Split_example = flush_outstanding-Split start start-IsIdle (omega arith)

flush_internal-Flushed_example : Good (Flushed start) (flush_internal start)
flush_internal-Flushed_example = flush_internal-Flushed start start-IsIdle

until_timeout-Filled_example :
    Good
      (λ rc v. Filled held more rc v × (length v.selects < 2))
      (until_timeout 1024 start start.selects)
until_timeout-Filled_example =
    until_timeout-Filled 1024 start.selects start (omega arith) start-IsIdle

-- The prompt arrives: the data up to it are found, and "d" stays outstanding.
prompt_found :
    result (recv compiled 1024 true call (some tt) start)
    ≡ some (found, b'a' ∷ b'\n' ∷ b'b' ∷ b'c' ∷ b'$' ∷ [], b'd' ∷ [])
unfolding recv recv_pattern recv_compiled recv_regex look_for_regex dollar rounds timed_round
    timed_search search_kept at_match c_string until_timeout fill append_to_outstanding write_at
    append_onto copy_onto cut_match fill_into fill_reply store enlarge read hand_over keep_rest
prompt_found = refl
