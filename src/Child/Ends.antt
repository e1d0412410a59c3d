-- ===== src/Child/Ends.antt =====
-- How pdip_terminate_child ends a process that is alive.
use win_pdip.Prelude.{
  ℕ, ◌<◌, ◌≡◌, refl, true, false, none, some, List, [], ◌∷◌, ltb, lt→ltb, ◌==◌, arith,
}
use win_pdip.Outcome.{Errno}
use win_pdip.Child.{
  alive, dead, WaitReply, running, ended, CInt, Child, done, wait_loop, wait_child, check_child,
  kill_child, sigterm, sigkill, force, check_again, check_first, terminate_child,
}

-- A process `p` that is alive, and `kill` grants every request.
abbrev pub live : ℕ → ℕ → CInt → Errno → List WaitReply → List (ℕ × ℕ) → Child
live p status master e waits sent = record {
  state = alive;
  pid = some p;
  status = status;
  pty_master = master;
  errno = e;
  waits = waits;
  kills = [];
  sent = sent;
}

-- The same object once the process has ended.
abbrev pub gone : ℕ → CInt → Errno → List WaitReply → List (ℕ × ℕ) → Child
gone status master e waits sent = record {
  state = dead;
  pid = none;
  status = status;
  pty_master = master;
  errno = e;
  waits = waits;
  kills = [];
  sent = sent;
}

-- pdip_terminate_child of a live process, where kill succeeds: a process that has ended at the
-- first or second check got SIGTERM only, one that is still running then gets SIGKILL too; in each
-- case the object is dead and the status is the one that waitpid gave.
pub terminate_child-ended :
    (p old s : ℕ) (master : CInt) (e : Errno) (ws : List WaitReply) (sent : List (ℕ × ℕ))
    → 0 < p
    → (terminate_child (live p old master e (ended p s ∷ ws) sent)
        ≡ done s (gone s master e ws ((p, sigterm) ∷ sent)))
      × (terminate_child (live p old master e (running ∷ ended p s ∷ ws) sent)
          ≡ done s (gone s master e ws ((p, sigterm) ∷ sent)))
      × (terminate_child (live p old master e (running ∷ running ∷ ended p s ∷ ws) sent)
          ≡ done s (gone s master e ws ((p, sigkill) ∷ (p, sigterm) ∷ sent)))
unfolding terminate_child check_child check_first check_again force wait_child wait_loop kill_child
terminate_child-ended p old s master e ws sent h =
    let process : ltb 0 p ≡ true = lt→ltb 0 p h in
    let self : (p == p) ≡ true = ground arith in
    let other : (p == 0) ≡ false = ground arith in
    (
      rw (process, self) refl,
      rw (process, other) (rw self refl),
      rw (process, other) (rw (other) (rw (process) (rw self refl))),
    )
