-- ===== src/Recv/Reading.antt =====
-- Reading from the terminal: what `pdip_read` and `pdip_read_until_timeout` give.
use win_pdip.Prelude.{
  ℕ, ◌-◌, ◌<◌, ◌≡◌, ◌⊎◌, inl, inr, refl, ap, ◌∙◌, true, Option, none, some, List, [], ◌∷◌, ◌++◌,
  Bytes, length, arith, ltb,
}
use win_pdip.Outcome.{Result, ok, err}
use win_pdip.Recv.Machine.{Buf, ReadReply, SelectReply, elapsed, ready, World}
use win_pdip.Recv.Steps.{Rc, rc_0, rc_error, store, fill_reply, fill_into, fill, until_timeout}
use win_pdip.Recv.Invariant.{
  text, Fits, FitsAt, Holds, Clean, Granted, pending, IsIdle, Good, Good->>=, Good-mono, text-empty,
  Holds→Fits,
}
use win_pdip.Recv.{fuel_for, receive_reply, receive_into, receive_block}
use win_pdip.Recv.Room.{ReadPost, read-Post, Roomy, enlarge-Roomy, Stored, store-Stored}

-- What `pdip_read_until_timeout` leaves behind.
pub record Filled (kept_before : Buf) (coming : List ReadReply) (rc : Rc) (v : World) : Type 0 where
  pub fits : Fits v.user
  pub terminated : 0 < v.user.len → Holds v.user
  pub stream : text v.user ++ pending v.reads ≡ pending coming
  pub clean : Clean v.reads
  pub heap : Granted v.heap
  pub kept : v.kept ≡ kept_before
  pub code :
      ((rc ≡ rc_0) × ((0 < v.user.len) ⊎ (v.left ≡ 0))) ⊎ ((rc ≡ rc_error) × (v.user.len ≡ 0))

-- What follows a read of `l` bytes at most into the room made.
fill_reply-Filled :
    (w v : World) (l : ℕ) (r : Option (Result Bytes × List ReadReply))
    → Roomy w v
    → l < v.user.sz
    → ReadPost l v.reads r
    → Good (λ rc u. Filled w.kept w.reads rc u × (u.selects ≡ w.selects)) (fill_reply v r)
unfolding fill_reply
fill_reply-Filled w v l none room lt h = tt
fill_reply-Filled w v l (some (ok bs, rs)) room lt h =
    Good->>= (Stored bs (record v { reads = rs })) _ (store bs (record v { reads = rs }) v.user.mem)
      _ (store-Stored bs _ v.user.mem room.fits room.empty h.2 (omega arith))
      λ _ u s. (
        record {
          fits = Holds→Fits u.user s.holds;
          terminated = λ _. s.holds;
          stream = rw (s.is_text, s.reads) (h.3 ∙ ap pending room.reads);
          clean = rw s.reads h.4;
          heap = rw s.heap room.heap;
          kept = s.kept ∙ room.kept;
          code = inl (refl, inl (omega (arith, s.len)));
        },
        s.selects ∙ room.selects,
      )
fill_reply-Filled w v l (some (err e, rs)) room lt h =
    Good->>= (Stored [] (record v { reads = rs; errno = e })) _
      (store [] (record v { reads = rs; errno = e }) v.user.mem) _
      (store-Stored [] _ v.user.mem room.fits room.empty tt (omega arith))
      λ _ u s. (
        record {
          fits = Holds→Fits u.user s.holds;
          terminated = λ _. s.holds;
          stream = rw (s.is_text, s.reads) (h.0 ∙ ap pending room.reads);
          clean = rw s.reads h.1;
          heap = rw s.heap room.heap;
          kept = s.kept ∙ room.kept;
          code = inr (refl, s.len);
        },
        s.selects ∙ room.selects,
      )

fill-Filled :
    (increment : ℕ) (w : World)
    → 1 < increment
    → IsIdle w
    → Good (λ rc v. Filled w.kept w.reads rc v × (v.selects ≡ w.selects)) (fill increment w)
unfolding fill fill_into
fill-Filled increment w big idle =
    let (v, e, r) = enlarge-Roomy increment w big idle in
    let reads_clean = rw (← r.reads) at idle.reads_clean in
    rw (e, Good, fill_into)
      (fill_reply-Filled w v _ _ r (omega (arith, r.room, r.empty)) (
        read-Post (v.user.sz - v.user.len - 1) v.reads (rw r.reads idle.reads_clean)
          (omega (arith, r.room, r.empty))))

IsIdle-select :
    {w : World} (t : ℕ) (ss : List SelectReply)
    → IsIdle w
    → IsIdle (record w { left = t; selects = ss })
IsIdle-select t ss idle = record {
  kept_holds = idle.kept_holds;
  user_fits = idle.user_fits;
  user_empty = idle.user_empty;
  reads_clean = idle.reads_clean;
  heap_granted = idle.heap_granted;
}

-- Nothing has been read.
Filled-none :
    {w v : World} (rc : Rc)
    → IsIdle w
    → v.kept ≡ w.kept
    → v.user ≡ w.user
    → v.reads ≡ w.reads
    → v.heap ≡ w.heap
    → ((rc ≡ rc_0) × ((0 < v.user.len) ⊎ (v.left ≡ 0))) ⊎ ((rc ≡ rc_error) × (v.user.len ≡ 0))
    → Filled w.kept w.reads rc v
Filled-none {w} {v} rc idle k u r h code = record {
  fits = rw u idle.user_fits;
  terminated = λ lt. absurd (omega (arith, idle.user_empty, ap (λ (b : Buf). b.len) u));
  stream = rw (u, r, text-empty w.user idle.user_empty);
  clean = rw r idle.reads_clean;
  heap = rw h idle.heap_granted;
  kept = k;
  code = code;
}

-- pdip_read_until_timeout on a well-formed context with an empty user buffer and an increment
-- above 1 stays in the bounds of the buffer and loses no byte; it leaves the outstanding data
-- alone and ends with data, an elapsed time or an error, unless the answers recorded are used up.
pub until_timeout-Filled :
    (increment : ℕ) (ss : List SelectReply) (w : World)
    → 1 < increment
    → IsIdle w
    → Good
        (λ rc v. Filled w.kept w.reads rc v × (length v.selects < length ss))
        (until_timeout increment w ss)
unfolding until_timeout
until_timeout-Filled increment [] w big idle = tt
until_timeout-Filled increment (SelectReply.interrupted t ∷ ss) w big idle =
    Good-mono _ _ (until_timeout increment (record w { left = t }) ss)
      (until_timeout-Filled increment ss (record w { left = t }) big
        (IsIdle-select t w.selects idle))
      (λ rc v p. (p.0, omega arith))
until_timeout-Filled increment (SelectReply.failed e ∷ ss) w big idle =
    (Filled-none rc_error idle refl refl refl refl (inr (refl, idle.user_empty)), omega arith)
until_timeout-Filled increment (elapsed ∷ ss) w big idle =
    (Filled-none rc_0 idle refl refl refl refl (inl (refl, inr refl)), omega arith)
until_timeout-Filled increment (ready t ∷ ss) w big idle =
    Good-mono _ _ (fill increment (record w { selects = ss; left = t }))
      (fill-Filled increment _ big (IsIdle-select t ss idle))
      (λ rc v p. (p.0, rw p.1 (omega arith)))

pub Fits-reset : (p : Option Bytes) (sz len : ℕ) → FitsAt p sz len → len ≡ 0 → FitsAt p sz 0
Fits-reset none sz len h e = (h.0, refl)
Fits-reset (some b) sz len h e = (h.0, omega arith, inl refl, tt)

-- What a blocking read leaves behind.
pub record Received (w : World) (rc : Rc) (v : World) : Type 0 where
  pub filled : Filled w.kept w.reads rc v
  pub some_data : rc ≡ rc_0 → (0 < v.user.len) × (fuel_for v.reads < fuel_for w.reads)

receive_reply-Received :
    (w v : World) (l : ℕ) (r : Option (Result Bytes × List ReadReply))
    → Roomy w v
    → l < v.user.sz
    → ReadPost l v.reads r
    → Good (Received w) (receive_reply v r)
unfolding receive_reply
receive_reply-Received w v l none room lt h = tt
receive_reply-Received w v l (some (ok bs, rs)) room lt h =
    let u : World = record v {
      reads = rs;
      user = record { mem = v.user.mem; sz = v.user.sz; len = 0 };
    } in
    let pos : ltb 0 (length bs) ≡ true = ground arith in
    rw pos (
      Good->>= (Stored bs u) _ (store bs u v.user.mem) _
        (store-Stored bs u v.user.mem
          (Fits-reset v.user.mem v.user.sz v.user.len room.fits room.empty) refl h.2 (omega arith))
        λ _ t s. record {
          filled = record {
            fits = Holds→Fits t.user s.holds;
            terminated = λ _. s.holds;
            stream = rw (s.is_text, s.reads) (h.3 ∙ ap pending room.reads);
            clean = rw s.reads h.4;
            heap = rw s.heap room.heap;
            kept = s.kept ∙ room.kept;
            code = inl (refl, inl (omega (arith, s.len)));
          };
          some_data = λ _. (omega (arith, s.len), rw (s.reads, ← room.reads) h.5);
        })
receive_reply-Received w v l (some (err e, rs)) room lt h = record {
  filled = record {
    fits = room.fits;
    terminated = λ pos. absurd (omega (arith, room.empty));
    stream = rw (text-empty v.user room.empty) (h.0 ∙ ap pending room.reads);
    clean = h.1;
    heap = room.heap;
    kept = room.kept;
    code = inr (refl, room.empty);
  };
  some_data = λ q. absurd (cc);
}

-- The blocking read of pdip_recv on a well-formed context with an empty user buffer and an
-- increment above 1 stays in the bounds of the buffer and loses no byte; it ends with data or an
-- error, unless the answers recorded are used up.
pub receive_block-Received :
    (increment : ℕ) (w : World)
    → 1 < increment
    → IsIdle w
    → Good (Received w) (receive_block increment w)
unfolding receive_block receive_into
receive_block-Received increment w big idle =
    let (v, e, r) = enlarge-Roomy increment w big idle in
    rw (e, Good, receive_into)
      (receive_reply-Received w v _ _ r (omega (arith, r.room))
        (read-Post (v.user.sz - 1) v.reads (rw r.reads idle.reads_clean) (omega (arith, r.room))))
