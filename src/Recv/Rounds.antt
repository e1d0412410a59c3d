-- ===== src/Recv/Rounds.antt =====
-- The rounds of the loops of `pdip_recv` with a regular expression.
use win_pdip.Prelude.{
  ℕ, zero, suc, ◌<◌, ◌≡◌, subst, ◌⊎◌, inl, inr, refl, sym, ap, Bool, true, false, not, ◌&&◌,
  Bool-cases, Option, ◌++◌, Bytes, length, arith, length-append, ltb, ltb→lt, if◌then◌else◌, ◌==◌,
}
use win_pdip.Recv.Machine.{World, Outcome, done, ◌>>=◌}
use win_pdip.Recv.Steps.{
  Rc, rc_0, rc_1, rc_error, read_until_timeout, look_for_regex, flush_outstanding, flush_internal,
}
use win_pdip.Recv.Invariant.{
  text, Fits, Holds, Granted, Clean, IsIdle, pending, ahead, length-text, Holds→Fits, Good,
  Good->>=, Good-require,
}
use win_pdip.Recv.Reading.{Filled, until_timeout-Filled, Received, receive_block-Received}
use win_pdip.Recv.Matching.{IsBounded, Looked, Unmatched, look_for_regex-Looked}
use win_pdip.Recv.Lines.{Split, NoLine, flush_outstanding-Split}
use win_pdip.Recv.Flushing.{Flushed, flush_internal-Flushed}
use win_pdip.Recv.Returns.{
  Returned, Turned, Found-Returned, none_given, Split-Returned, Flushed-Conserves, Filled-IsIdle,
  Filled-ahead,
}
use win_pdip.Recv.{
  found, failure, Turn, leave, again, on_flow, late, timed_search, timed_round, blocking_round,
  receive_block, rounds, fuel_for,
}

module _ (increment : ℕ) (flow : Bool) (regexec : Bytes → Option ℕ) (big : 1 < increment)
    (bounded : IsBounded regexec) where
  -- With the flag PDIP_FLAG_RECV_ON_THE_FLOW.
  on_flow-Turned :
      (before : Bytes) (measure : World → ℕ) (n : ℕ) (w : World)
      → IsIdle w
      → flow ≡ true
      → before ≡ ahead w
      → 0 < w.kept.len
      → measure w < n
      → Good (Turned regexec flow before measure n) (on_flow increment flow regexec w)
  on_flow-Turned before measure n w idle on e pos less =
      Good->>= (λ rc v. Split w rc v ⊎ NoLine w rc v) _ (flush_outstanding w) _
        (flush_outstanding-Split w idle pos)
        λ rc v r. elim r [
          | inl s ↦ rw s.code (Split-Returned regexec flow before s idle on e)
          | inr s ↦ rw (s.code, s.same) (idle, sym e, less)
        ]

  late-Turned :
      (before : Bytes) (measure : World → ℕ) (n : ℕ) (w : World)
      → IsIdle w
      → before ≡ ahead w
      → w.left ≡ 0
      → Good (Turned regexec flow before measure n) (late increment flow regexec w)
  late-Turned before measure n w idle e over = elim (Bool-cases (flow && ltb 0 w.kept.len)) [
    | inl give ↦ rw give (
        Good->>= (Flushed w) _ (flush_internal w) _ (flush_internal-Flushed w idle) λ rc v f.
          rw f.code (record {
            conserves = Flushed-Conserves regexec flow before f idle e;
            means = ground (arith, f.user_len);
          }))
    | inr keep ↦ rw keep (record {
      conserves = none_given regexec flow before w idle e;
      means = (idle.user_empty, over);
    })
  ]

  -- After a search that failed, with no time limit or time left.
  on_Turned :
      (before : Bytes) (measure : World → ℕ) (n : ℕ) (w : World)
      → IsIdle w
      → before ≡ ahead w
      → 0 < w.kept.len
      → measure w < n
      → Good
          (Turned regexec flow before measure n)
          (if flow then on_flow increment flow regexec w else done again w)
  on_Turned before measure n w idle e pos less = elim (Bool-cases flow) [
    | inl on ↦
        subst
          (λ (b : Bool).
            Good (Turned regexec flow before measure n)
              (if b then on_flow increment flow regexec w else done again w))
          (sym on) (on_flow-Turned before measure n w idle on e pos less)
    | inr off ↦
        subst
          (λ (b : Bool).
            Good (Turned regexec flow before measure n)
              (if b then on_flow increment flow regexec w else done again w))
          (sym off) (idle, sym e, less)
  ]

  missed-Turned :
      (before : Bytes) (measure : World → ℕ) (n : ℕ) (w : World)
      → IsIdle w
      → before ≡ ahead w
      → 0 < w.kept.len
      → measure w < n
      → Good (Turned regexec flow before measure n) (
          if not (w.left == 0)
          then (if flow then on_flow increment flow regexec w else done again w)
          else late increment flow regexec w)
  missed-Turned before measure n w idle e pos less = elim (Bool-cases (w.left == 0)) [
    | inl over ↦ rw over (late-Turned before measure n w idle e (ground arith))
    | inr time ↦ rw time (on_Turned before measure n w idle e pos less)
  ]

  -- What is outstanding once data have been read and not matched.
  Unmatched-pos :
      {w v : World} {rc : Rc}
      → Unmatched regexec (text w.kept ++ text w.user) w rc v
      → Fits w.user
      → 0 < w.user.len
      → 0 < v.kept.len
  Unmatched-pos {w} {v} u fu pos = omega (
    arith,
    length-text v.kept (Holds→Fits v.kept u.idle.kept_holds),
    length-text w.user fu,
    length-append (text w.kept) (text w.user),
    ap (λ (t : Bytes). length t) u.kept_text,
  )

  -- After a read that gave data.
  timed_search-Turned :
      (before : Bytes) (n : ℕ) (w : World)
      → Fits w.user
      → (0 < w.user.len → Holds w.user)
      → 0 < w.user.len
      → Holds w.kept
      → Clean w.reads
      → Granted w.heap
      → before ≡ (text w.kept ++ text w.user) ++ pending w.reads
      → length w.selects < n
      → Good
          (Turned regexec flow before (λ v. length v.selects) n)
          (timed_search increment flow regexec w)
  unfolding timed_search
  timed_search-Turned before n w fu hu pos hk c g e less =
      Good->>= (Looked regexec (text w.kept ++ text w.user) w) _ (look_for_regex regexec w) _
        (look_for_regex-Looked regexec bounded w hk fu hu c g)
        λ rc v r. elim r [
          | inl f ↦ rw f.cut.code (Found-Returned regexec flow before f c e)
          | inr u ↦
              let e' : before ≡ ahead v = rw (u.kept_text, u.reads) e in
              let less' : length v.selects < n = rw u.selects less in
              rw u.code (
                missed-Turned before (λ t. length t.selects) n v u.idle e' (Unmatched-pos u fu pos)
                  less')
        ]

  -- The same with no timeout.
  blocking_search :
      (before : Bytes) (n : ℕ) (w : World)
      → Fits w.user
      → (0 < w.user.len → Holds w.user)
      → 0 < w.user.len
      → Holds w.kept
      → Clean w.reads
      → Granted w.heap
      → before ≡ (text w.kept ++ text w.user) ++ pending w.reads
      → fuel_for w.reads < n
      → Good (Turned regexec flow before (λ v. fuel_for v.reads) n) (
          look_for_regex regexec w >>= λ rc u. elim rc [
            | rc_0 ↦ done (leave found) u
            | rc_1 ↦ if flow then on_flow increment flow regexec u else done again u
            | rc_error ↦ done (leave failure) u
          ])
  blocking_search before n w fu hu pos hk c g e less =
      Good->>= (Looked regexec (text w.kept ++ text w.user) w) _ (look_for_regex regexec w) _
        (look_for_regex-Looked regexec bounded w hk fu hu c g)
        λ rc v r. elim r [
          | inl f ↦ rw f.cut.code (Found-Returned regexec flow before f c e)
          | inr u ↦
              let e' : before ≡ ahead v = rw (u.kept_text, u.reads) e in
              let less' : fuel_for v.reads < n = rw u.reads less in
              rw u.code (
                on_Turned before (λ t. fuel_for t.reads) n v u.idle e' (Unmatched-pos u fu pos)
                  less')
        ]

  -- A round with a timeout keeps the data, and takes an answer of `select` at least.
  pub timed_round-Turned :
      (w : World)
      → IsIdle w
      → Good
          (Turned regexec flow (ahead w) (λ v. length v.selects) (length w.selects))
          (timed_round increment flow regexec w)
  unfolding timed_round
  timed_round-Turned w idle =
      Good->>= (λ rc v. Filled w.kept w.reads rc v × (length v.selects < length w.selects)) _
        (read_until_timeout increment w) _ (until_timeout-Filled increment w.selects w big idle)
        λ rc v (f, less). elim f.code [
          | inl (code, got) ↦ elim (Bool-cases (ltb 0 v.user.len)) [
            | inl more ↦
                rw (code, more)
                  (timed_search-Turned (ahead w) (length w.selects) v f.fits f.terminated
                    (ltb→lt _ _ more) (rw f.kept idle.kept_holds) f.clean f.heap
                    (Filled-ahead regexec flow (ahead w) w f refl) less)
            | inr silent ↦
                let over : v.left ≡ 0 = ground arith in
                let (i, e) =
                  Filled-IsIdle regexec flow (ahead w) w f idle.kept_holds (ground arith) refl in
                rw (code, silent)
                  (Good-require _ (v.left == 0) _ (ground arith) (record {
                    conserves = none_given regexec flow (ahead w) v i e;
                    means = (i.user_empty, over);
                  }))
          ]
          | inr (code, none_read) ↦
              let (i, e) =
                Filled-IsIdle regexec flow (ahead w) w f idle.kept_holds none_read refl in
              let silent : ltb 0 v.user.len ≡ false = ground arith in
              rw (code, silent)
                (record { conserves = none_given regexec flow (ahead w) v i e; means = none_read })
        ]

  -- A round with no timeout keeps the data, and takes some of the terminal's.
  pub blocking_round-Turned :
      (w : World)
      → IsIdle w
      → Good
          (Turned regexec flow (ahead w) (λ v. fuel_for v.reads) (fuel_for w.reads))
          (blocking_round increment flow regexec w)
  unfolding blocking_round
  blocking_round-Turned w idle =
      Good->>= (Received w) _ (receive_block increment w) _
        (receive_block-Received increment w big idle)
        λ rc v r. elim r.filled.code [
          | inl (code, got) ↦
              let (pos, fewer) = r.some_data code in
              rw code (
                blocking_search (ahead w) (fuel_for w.reads) v r.filled.fits r.filled.terminated pos
                  (rw r.filled.kept idle.kept_holds) r.filled.clean r.filled.heap
                  (Filled-ahead regexec flow (ahead w) w r.filled refl) fewer)
          | inr (code, none_read) ↦
              let (i, e) =
                Filled-IsIdle regexec flow (ahead w) w r.filled idle.kept_holds none_read refl in
              rw code
                (record { conserves = none_given regexec flow (ahead w) v i e; means = none_read })
        ]

  -- A loop whose rounds keep the data and lower a measure ends with its fuel above the measure.
  pub rounds-Returned :
      (measure : World → ℕ) (round : World → Outcome Turn)
      → ((w : World)
          → IsIdle w
          → Good (Turned regexec flow (ahead w) measure (measure w)) (round w))
      → (fuel : ℕ) (w : World) → IsIdle w
      → measure w < fuel
      → Good (Returned regexec flow (ahead w)) (rounds fuel round w)
  unfolding rounds
  rounds-Returned measure round keep zero w idle less = absurd (omega arith)
  rounds-Returned measure round keep (suc fuel) w idle less =
      Good->>= (Turned regexec flow (ahead w) measure (measure w)) _ (round w) _ (keep w idle)
        λ t v.
          elim t
            as (λ t.
              Turned regexec flow (ahead w) measure (measure w) t v
              → Good (Returned regexec flow (ahead w))
                  (elim t [ leave c ↦ done c v | again ↦ rounds fuel round v ])) [
                    | leave c ↦ λ r. r
                    | again ↦ λ r.
                        rw (← r.1)
                          (rounds-Returned measure round keep fuel v r.0 (omega (arith, r.2)))
                  ]
