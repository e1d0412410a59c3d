-- ===== src/Recv/Calls.antt =====
-- `pdip_recv` as its caller sees it.
use win_pdip.Prelude.{
  ℕ, ◌+◌, ◌<◌, ◌≡◌, inl, inr, refl, sym, ◌∙◌, Bool, true, false, Bool-cases, Option, none, some,
  ◌++◌, Bytes, length, arith, append-nil, ltb, ltb→lt, if◌then◌else◌, ◌==◌,
}
use win_pdip.Recv.Machine.{Buf, World, is_null}
use win_pdip.Recv.Steps.{Rc, rc_0, rc_error, read_until_timeout, look_for_regex, flush_internal}
use win_pdip.Recv.Invariant.{
  text, FitsAt, Holds, Granted, Clean, IsIdle, ahead, text-empty, Good, Good->>=, Good-mono,
}
use win_pdip.Recv.Reading.{Filled, until_timeout-Filled, Received, receive_block-Received}
use win_pdip.Recv.Matching.{IsBounded, Looked, look_for_regex-Looked}
use win_pdip.Recv.Flushing.{Flushed, flush_internal-Flushed}
use win_pdip.Recv.Returns.{Returned, Conserves, Found-Returned, Flushed-Conserves}
use win_pdip.Recv.Rounds.{timed_round-Turned, blocking_round-Turned, rounds-Returned}
use win_pdip.Recv.{
  Code, found, timeout, received, failure, timed_round, blocking_round, receive_block, rounds,
  plain_timed, plain_blocking, recv_plain, recv_regex, recv_pattern, recv, fuel_for, Call,
}

module _ (increment : ℕ) (flow : Bool) (regexec : Bytes → Option ℕ) (big : 1 < increment)
    (bounded : IsBounded regexec) where
  looped :
      (timed : Bool) (w : World)
      → IsIdle w
      → Good (Returned regexec flow (ahead w)) (
          if timed
          then rounds (length w.selects + 1) (timed_round increment flow regexec) w
          else rounds (fuel_for w.reads + 1) (blocking_round increment flow regexec) w)
  looped true w idle =
      rounds-Returned increment flow regexec big bounded (λ v. length v.selects) _
        (timed_round-Turned increment flow regexec big bounded) _ w idle (omega arith)
  looped false w idle =
      rounds-Returned increment flow regexec big bounded (λ v. fuel_for v.reads) _
        (blocking_round-Turned increment flow regexec big bounded) _ w idle (omega arith)

  pub recv_regex-Returned :
      (timed : Bool) (w : World)
      → IsIdle w
      → Good (Returned regexec flow (ahead w)) (recv_regex increment flow regexec timed w)
  unfolding recv_regex
  recv_regex-Returned timed w idle =
      let t = text-empty w.user idle.user_empty in
      Good->>= (Looked regexec (text w.kept ++ text w.user) w) _ (look_for_regex regexec w) _
        (look_for_regex-Looked regexec bounded w idle.kept_holds idle.user_fits
          (λ pos. absurd (omega (arith, idle.user_empty))) idle.reads_clean idle.heap_granted)
        λ rc v r. elim r [
          | inl f ↦
              rw f.cut.code
                (Found-Returned regexec flow (ahead w) f idle.reads_clean (rw (t, append-nil)))
          | inr u ↦
              let same : ahead v ≡ ahead w = rw (u.kept_text, u.reads, t, append-nil) refl in
              rw (u.code, ← same) (looped timed v u.idle)
        ]

-- What each return code means, with no regular expression.
abbrev pub PlainMeans : Code → World → Type 0
PlainMeans found v = ⊥
PlainMeans timeout v = (v.user.len ≡ 0) × (v.left ≡ 0)
PlainMeans received v = 0 < v.user.len
PlainMeans failure v = v.user.len ≡ 0

-- The return with no regular expression: outstanding data are given at once, all of them.
pub record PlainReturned (w : World) (c : Code) (v : World) : Type 0 where
  pub conserves : Conserves (ahead w) v
  pub means : PlainMeans c v
  pub at_once : 0 < w.kept.len → (c ≡ received) × (text v.user ≡ text w.kept)

module _ (increment : ℕ) (big : 1 < increment) where
  Filled-plain :
      (w : World) (rc : Rc) (v : World)
      → Filled w.kept w.reads rc v
      → IsIdle w
      → w.kept.len ≡ 0
      → Conserves (ahead w) v
  Filled-plain w rc v f idle none_kept = record {
    user = f.fits;
    kept = rw f.kept idle.kept_holds;
    clean = f.clean;
    heap = f.heap;
    conserved = rw (f.kept, text-empty w.kept none_kept) (sym f.stream);
  }

  plain-Returned :
      (timed : Bool) (w : World)
      → IsIdle w
      → w.kept.len ≡ 0
      → Good
          (λ c v. Conserves (ahead w) v × PlainMeans c v)
          (if timed then plain_timed increment w else plain_blocking increment w)
  plain-Returned true w idle none_kept =
      Good->>= (λ rc v. Filled w.kept w.reads rc v × (length v.selects < length w.selects)) _
        (read_until_timeout increment w) _ (until_timeout-Filled increment w.selects w big idle)
        λ rc v (f, less). elim f.code [
          | inl (code, got) ↦ elim (Bool-cases (ltb 0 v.user.len)) [
            | inl more ↦
                rw (code, more)
                  (Filled-plain w rc_0 v (rw code at f) idle none_kept, ltb→lt _ _ more)
            | inr silent ↦
                rw (code, silent)
                  (
                    Filled-plain w rc_0 v (rw code at f) idle none_kept,
                    (ground arith, ground arith),
                  )
          ]
          | inr (code, none_read) ↦
              let silent : ltb 0 v.user.len ≡ false = ground arith in
              rw (code, silent) (Filled-plain w rc_error v (rw code at f) idle none_kept, none_read)
        ]
  plain-Returned false w idle none_kept =
      Good->>= (Received w) _ (receive_block increment w) _
        (receive_block-Received increment w big idle)
        λ rc v r. elim r.filled.code [
          | inl (code, got) ↦
              rw code (Filled-plain w rc v r.filled idle none_kept, (r.some_data code).0)
          | inr (code, none_read) ↦ rw code (Filled-plain w rc v r.filled idle none_kept, none_read)
        ]

  pub recv_plain-Returned :
      (timed : Bool) (w : World) → IsIdle w → Good (PlainReturned w) (recv_plain increment timed w)
  unfolding recv_plain
  recv_plain-Returned timed w idle =
      Good->>= (Flushed w) _ (flush_internal w) _ (flush_internal-Flushed w idle) λ rc v f.
        rw f.code (elim (Bool-cases (ltb 0 v.user.len)) [
          | inl more ↦ rw more (record {
            conserves = Flushed-Conserves (λ _. none) timed (ahead w) f idle refl;
            means = ltb→lt _ _ more;
            at_once = λ _. (refl, f.user_text);
          })
          | inr silent ↦
              let none_given : v.user.len ≡ 0 = ground arith in
              let none_kept : w.kept.len ≡ 0 = sym f.user_len ∙ none_given in
              let same : ahead v ≡ ahead w =
                rw (text-empty v.kept f.kept_empty, text-empty w.kept none_kept, f.reads) refl in
              rw silent (
                Good-mono _ _
                  (if timed then plain_timed increment v else plain_blocking increment v)
                  (plain-Returned timed v
                    (record {
                      kept_holds = f.kept;
                      user_fits = f.user;
                      user_empty = none_given;
                      reads_clean = rw f.reads idle.reads_clean;
                      heap_granted = rw f.heap idle.heap_granted;
                    })
                    f.kept_empty)
                  (λ c u r. record {
                    conserves = rw same at r.0;
                    means = r.1;
                    at_once = λ pos. absurd (omega arith);
                  }))
        ])

-- The block behind the caller's pointer has the size that the caller says.
abbrev SizedAt : Option Bytes → ℕ → Type 0
SizedAt none sz = Unit
SizedAt (some b) sz = length b ≡ sz

-- What `pdip_recv` accepts: no null pointer, a buffer and a size that agree, an open master side.
pub record IsAccepted (call : Call) (user : Buf) : Type 0 where
  pub data_sz : call.no_data_sz ≡ false
  pub display : call.no_display ≡ false
  pub display_sz : call.no_display_sz ≡ false
  pub ctx : call.no_ctx ≡ false
  pub coherent : (user.sz == 0) ≡ is_null user.mem
  pub master : call.open_master ≡ true

-- A well-formed context and environment in front of a call.
pub record IsReady (w : World) : Type 0 where
  pub kept_holds : Holds w.kept
  pub user_sized : SizedAt w.user.mem w.user.sz
  pub reads_clean : Clean w.reads
  pub heap_granted : Granted w.heap

-- The state once `*data_sz` is 0.
abbrev reset : World → World
reset w = record w { user = record { mem = w.user.mem; sz = w.user.sz; len = 0 } }

Fits-accepted : (p : Option Bytes) (sz : ℕ) → SizedAt p sz → (sz == 0) ≡ is_null p → FitsAt p sz 0
Fits-accepted none sz h e = ground arith
Fits-accepted (some b) sz h e = (h, ground arith, inl refl, tt)

reset-IsIdle : {call : Call} (w : World) → IsReady w → IsAccepted call w.user → IsIdle (reset w)
reset-IsIdle w r a = record {
  kept_holds = r.kept_holds;
  user_fits = Fits-accepted w.user.mem w.user.sz r.user_sized a.coherent;
  user_empty = refl;
  reads_clean = r.reads_clean;
  heap_granted = r.heap_granted;
}

module _ {Pattern : Type 0} (regcomp : Pattern → Option (Bytes → Option ℕ)) (increment : ℕ)
    (flow : Bool) where
  recv_accepted :
      (call : Call) (pattern : Option Pattern) (w : World)
      → IsAccepted call w.user
      → recv regcomp increment flow call pattern w
        ≡ recv_pattern regcomp increment flow call.timed pattern (reset w)
  unfolding recv
  recv_accepted call pattern w a = ground arith

  -- pdip_recv with no regular expression, on coherent arguments, with well-formed outstanding
  -- data, a terminal that gives bytes and no NUL, an allocator that gives memory, and an increment
  -- above 1: no assertion fails and no access is out of bounds; where the recorded answers do not
  -- run out the call returns with well-formed buffers and no byte lost, doubled or out of order;
  -- outstanding data are returned at once, all of them; data come with PDIP_RECV_DATA and with no
  -- other code.
  pub recv-none-Returned :
      (call : Call) (w : World)
      → 1 < increment
      → IsAccepted call w.user
      → IsReady w
      → Good (PlainReturned (reset w)) (recv regcomp increment flow call none w)
  unfolding recv_pattern
  recv-none-Returned call w big a r =
      rw (recv_accepted call none w a)
        (recv_plain-Returned increment big call.timed (reset w) (reset-IsIdle w r a))
