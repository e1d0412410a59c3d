-- ===== src/Child.antt =====
-- The controlled process of an object: pdip_update_dead_child, pdip_wait_child, pdip_check_child,
-- pdip_status, pdip_kill_child, pdip_terminate_child, pdip_sig and pdip_fd of pdip_lib.c. The calls
-- run with no SIGCHLD handler in between.
pub mod Reports
pub mod Signals
pub mod Ends
pub mod Tests
use win_pdip.Prelude.{
  ℕ, zero, suc, ◌+◌, Bool, true, false, not, Option, none, some, List, [], ◌∷◌, ltb, ◌==◌,
  if◌then◌else◌,
}
use win_pdip.Outcome.{Errno, Result, ok, err, einval, eperm, enoent, eagain}

-- PDIP_STATE_INIT, PDIP_STATE_ALIVE, PDIP_STATE_ZOMBIE and PDIP_STATE_DEAD
pub data State : Type 0 where
  init alive zombie dead : State

-- What `waitpid` answers: EINTR, another error, 0 (WNOHANG, and no child has ended), or a child that
-- has ended and its status.
pub data WaitReply : Type 0 where
  interrupted : WaitReply
  failed : Errno → WaitReply
  running : WaitReply
  ended : ℕ → ℕ → WaitReply

-- An `int` that is -1 (`none`) or not negative: a process number, or a return code.
abbrev pub CInt : Type 0
CInt = Option ℕ

abbrev pub same : CInt → CInt → Bool
same none none = true
same (some a) (some b) = a == b
same _ _ = false

-- The fields of the object, `errno`, the answers of `waitpid` and of `kill` (`none` is success), and
-- the signals sent with their targets, the latest in front.
pub record Child : Type 0 where
  pub state : State
  pub pid : CInt
  pub status : ℕ
  pub pty_master : CInt
  pub errno : Errno
  pub waits : List WaitReply
  pub kills : List (Option Errno)
  pub sent : List (ℕ × ℕ)

-- A call returns, or it waits for an answer that is not recorded.
pub data Step (A : Type 0) : Type 0 where
  done : A → Child → Step A
  waiting : Step A

infixl 5 ◌>>=◌
abbrev pub ◌>>=◌ : {A B : Type 0} → Step A → (A → Child → Step B) → Step B
done a c >>= f = f a c
waiting >>= f = waiting

abbrev pub is_dead : State → Bool
is_dead dead = true
is_dead _ = false

abbrev pub is_init : State → Bool
is_init init = true
is_init _ = false

abbrev pub is_alive : State → Bool
is_alive alive = true
is_alive _ = false

-- `pdip_update_dead_child`
abbrev pub update_dead_child : ℕ → Child → Child
update_dead_child status c = record c { status = status; state = dead; pid = none }

-- The loop around `waitpid`: its return code, `*status`, and the state behind it.
unfoldable pub wait_loop : ℕ → Child → List WaitReply → Step (CInt × ℕ)
wait_loop status c [] = waiting
wait_loop status c (interrupted ∷ ws) = wait_loop status c ws
wait_loop status c (failed e ∷ ws) = done (none, status) (record c { errno = e; waits = ws })
wait_loop status c (running ∷ ws) = done (some 0, status) (record c { waits = ws })
wait_loop status c (ended p s ∷ ws) = done (some p, s) (record c { waits = ws })

-- `if (pid == rc)`: the child is dead, with return code `n`.
abbrev pub reap : CInt → ℕ → (CInt × ℕ) → Child → Step (CInt × ℕ)
reap pid n (rc, status) c =
    if same pid rc then done (some n, status) (update_dead_child status c) else done (rc, status) c

-- `pdip_wait_child`: the return code and `*status`.
unfoldable pub wait_child : Child → Step (CInt × ℕ)
unfolding wait_loop
wait_child c =
    if is_dead c.state
    then done (some 0, c.status) c
    else (wait_loop c.status c c.waits >>= reap c.pid 0)

-- `pdip_check_child`
unfoldable pub check_child : Child → Step (CInt × ℕ)
unfolding wait_loop
check_child c =
    if is_dead c.state
    then done (some 1, c.status) c
    else if is_init c.state
    then done (none, c.status) (record c { errno = eperm })
    else (wait_loop c.status c c.waits >>= reap c.pid 1)

-- What `pdip_status` makes of the return code of each: its own, and `*status` where it is written.
abbrev pub report_wait : (CInt × ℕ) → Child → Step (CInt × Option ℕ)
report_wait (rc, status) c = done (rc, if same rc (some 0) then some status else none) c

abbrev pub report_check : (CInt × ℕ) → Child → Step (CInt × Option ℕ)
report_check (rc, status) c =
    if same rc (some 1)
    then done (some 0, some status) c
    else if same rc (some 0)
    then done (none, none) (record c { errno = eagain })
    else done (rc, none) c

-- `pdip_status` of an object, with a place for the status.
unfoldable pub status : Bool → Child → Step (CInt × Option ℕ)
unfolding wait_child check_child
status blocking c =
    if blocking then wait_child c >>= report_wait else check_child c >>= report_check

abbrev pub next_kill : List (Option Errno) → Option Errno × List (Option Errno)
next_kill [] = (none, [])
next_kill (k ∷ ks) = (k, ks)

-- `kill(pid, sig)`
abbrev pub kill_at : ℕ → ℕ → Child → CInt × Child
kill_at p sig c =
    let (answer, ks) = next_kill c.kills in
    elim answer [
      | none ↦ (some 0, record c { kills = ks; sent = (p, sig) ∷ c.sent })
      | some e ↦ (none, record c { kills = ks; errno = e })
    ]

abbrev pub kill_pid : CInt → ℕ → Child → CInt × Child
kill_pid none sig c = (none, record c { errno = enoent })
kill_pid (some p) sig c = if ltb 0 p then kill_at p sig c else (none, record c { errno = enoent })

-- `pdip_kill_child`
unfoldable pub kill_child : ℕ → Child → CInt × Child
kill_child sig c = kill_pid c.pid sig c

-- `pdip_sig`
abbrev pub sig : ℕ → Child → CInt × Child
sig n c = if is_alive c.state then kill_child n c else (none, record c { errno = eperm })

-- `pdip_fd`
abbrev pub fd : Child → CInt × Child
fd c = if is_alive c.state then (c.pty_master, c) else (none, record c { errno = eperm })

abbrev pub sigterm : ℕ
sigterm = 15

abbrev pub sigkill : ℕ
sigkill = 9

-- "SIGKILL", and the wait for the end.
unfoldable pub force : Child → Step ℕ
unfolding kill_child wait_child
force c = wait_child (kill_child sigkill c).1 >>= λ r d. done r.1 d

-- The second check, after the pause.
unfoldable pub check_again : (CInt × ℕ) → Child → Step ℕ
unfolding force
check_again (rc, n) c = if same rc (some 1) then done n c else force c

-- The first check.
unfoldable pub check_first : (CInt × ℕ) → Child → Step ℕ
unfolding check_again check_child
check_first (rc, n) c = if same rc (some 1) then done n c else (check_child c >>= check_again)

-- `pdip_terminate_child`: the status.
unfoldable pub terminate_child : Child → Step ℕ
unfolding kill_child check_child check_first
terminate_child c = check_child (kill_child sigterm c).1 >>= check_first
