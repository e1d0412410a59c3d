-- ===== src/Child/Signals.antt =====
-- The signals that reach the controlled process, and its termination.
use win_pdip.Prelude.{
  ℕ, ◌<◌, ◌≡◌, ◌⊎◌, refl, sym, subst, Option, none, some, List, [], ◌∷◌, ltb, arith, Bool-cases,
  inl, inr, ltb→lt,
}
use win_pdip.Outcome.{Errno}
use win_pdip.Child.{
  WaitReply, interrupted, failed, running, ended, CInt, same, Child, ◌>>=◌, is_dead, is_init,
  wait_loop, reap, wait_child, check_child, next_kill, kill_at, kill_pid, kill_child, sig, sigterm,
  sigkill, force, check_again, check_first, terminate_child,
}
use win_pdip.Child.Reports.{Gives, Gives->>=}

-- Every signal sent has the target `p`, a process.
abbrev pub AllTo : ℕ → List (ℕ × ℕ) → Type 0
AllTo p [] = Unit
AllTo p ((q, sig) ∷ sent) = (q ≡ p) × (0 < q) × AllTo p sent

-- The object has the process `p`, or none, and no other got a signal.
pub record IsAimed (p : ℕ) (c : Child) : Type 0 where
  pub target : (c.pid ≡ some p) ⊎ (c.pid ≡ none)
  pub signals : AllTo p c.sent

kill_at-IsAimed : (p n : ℕ) (c : Child) → 0 < p → IsAimed p c → IsAimed p (kill_at p n c).1
kill_at-IsAimed p n c h v =
    elim (next_kill c.kills).0
      as (λ (o : Option Errno).
        IsAimed p
          (elim o as (λ _. CInt × Child) [
            | none ↦ (some 0, record c { kills = (next_kill c.kills).1; sent = (p, n) ∷ c.sent })
            | some e ↦ (none, record c { kills = (next_kill c.kills).1; errno = e })
          ]).1) [
            | none ↦ record { target = v.target; signals = (refl, h, v.signals) }
            | some e ↦ record { target = v.target; signals = v.signals }
          ]

kill_pid-IsAimed :
    (p : ℕ) (o : CInt) (n : ℕ) (c : Child)
    → (o ≡ some p) ⊎ (o ≡ none)
    → IsAimed p c
    → IsAimed p (kill_pid o n c).1
kill_pid-IsAimed p none n c h v = record { target = v.target; signals = v.signals }
kill_pid-IsAimed p (some q) n c h v = elim (Bool-cases (ltb 0 q)) [
  | inl process ↦
      let e : q ≡ p = ground arith in
      rw process (
        subst (λ (x : ℕ). IsAimed p (kill_at x n c).1) (sym e)
          (kill_at-IsAimed p n c (omega (arith, ltb→lt 0 q process, e)) v))
  | inr other ↦ rw other (record { target = v.target; signals = v.signals })
]

kill_child-IsAimed : (p n : ℕ) (c : Child) → IsAimed p c → IsAimed p (kill_child n c).1
unfolding kill_child
kill_child-IsAimed p n c v = kill_pid-IsAimed p c.pid n c v.target v

wait_loop-IsAimed :
    (p n : ℕ) (c : Child) (ws : List WaitReply)
    → IsAimed p c
    → Gives (λ r d. IsAimed p d) (wait_loop n c ws)
unfolding wait_loop
wait_loop-IsAimed p n c [] v = tt
wait_loop-IsAimed p n c (interrupted ∷ ws) v = wait_loop-IsAimed p n c ws v
wait_loop-IsAimed p n c (failed e ∷ ws) v = record { target = v.target; signals = v.signals }
wait_loop-IsAimed p n c (running ∷ ws) v = record { target = v.target; signals = v.signals }
wait_loop-IsAimed p n c (ended q s ∷ ws) v = record { target = v.target; signals = v.signals }

reap-IsAimed :
    (p : ℕ) (pid : CInt) (n : ℕ) (r : CInt × ℕ) (c : Child)
    → IsAimed p c
    → Gives (λ r d. IsAimed p d) (reap pid n r c)
reap-IsAimed p pid n (rc, s) c v = elim (Bool-cases (same pid rc)) [
  | inl child ↦ rw child (record { target = inr refl; signals = v.signals })
  | inr other ↦ rw other v
]

waited-IsAimed :
    (p n : ℕ) (c : Child)
    → IsAimed p c
    → Gives (λ r d. IsAimed p d) (wait_loop c.status c c.waits >>= reap c.pid n)
waited-IsAimed p n c v =
    Gives->>= (λ r d. IsAimed p d) (λ r d. IsAimed p d) (wait_loop c.status c c.waits)
      (reap c.pid n) (wait_loop-IsAimed p c.status c c.waits v)
      (λ r d w. reap-IsAimed p c.pid n r d w)

pub wait_child-IsAimed :
    (p : ℕ) (c : Child) → IsAimed p c → Gives (λ r d. IsAimed p d) (wait_child c)
unfolding wait_child
wait_child-IsAimed p c v = elim (Bool-cases (is_dead c.state)) [
  | inl gone ↦ rw gone v
  | inr other ↦ rw other (waited-IsAimed p 0 c v)
]

check_child-IsAimed : (p : ℕ) (c : Child) → IsAimed p c → Gives (λ r d. IsAimed p d) (check_child c)
unfolding check_child
check_child-IsAimed p c v = elim (Bool-cases (is_dead c.state)) [
  | inl gone ↦ rw gone v
  | inr other ↦ elim (Bool-cases (is_init c.state)) [
    | inl new ↦ rw (other, new) (record { target = v.target; signals = v.signals })
    | inr started ↦ rw (other, started) (waited-IsAimed p 1 c v)
  ]
]

force-IsAimed : (p : ℕ) (c : Child) → IsAimed p c → Gives (λ s d. IsAimed p d) (force c)
unfolding force
force-IsAimed p c v =
    Gives->>= (λ r d. IsAimed p d) (λ s d. IsAimed p d) (wait_child (kill_child sigkill c).1) _
      (wait_child-IsAimed p _ (kill_child-IsAimed p sigkill c v)) (λ r d w. w)

check_again-IsAimed :
    (p : ℕ) (r : CInt × ℕ) (c : Child) → IsAimed p c → Gives (λ s d. IsAimed p d) (check_again r c)
unfolding check_again
check_again-IsAimed p (rc, n) c v = elim (Bool-cases (same rc (some 1))) [
  | inl gone ↦ rw gone v
  | inr other ↦ rw other (force-IsAimed p c v)
]

check_first-IsAimed :
    (p : ℕ) (r : CInt × ℕ) (c : Child) → IsAimed p c → Gives (λ s d. IsAimed p d) (check_first r c)
unfolding check_first
check_first-IsAimed p (rc, n) c v = elim (Bool-cases (same rc (some 1))) [
  | inl gone ↦ rw gone v
  | inr other ↦ rw other (
      Gives->>= (λ r d. IsAimed p d) (λ s d. IsAimed p d) (check_child c) check_again
        (check_child-IsAimed p c v) (λ r d w. check_again-IsAimed p r d w))
]

-- pdip_terminate_child of an object with one process or none sends no signal to any other process,
-- whatever waitpid and kill answer, even where the child dies in between and the number in the
-- object becomes -1.
pub terminate_child-IsAimed :
    (p : ℕ) (c : Child) → IsAimed p c → Gives (λ s d. IsAimed p d) (terminate_child c)
unfolding terminate_child
terminate_child-IsAimed p c v =
    Gives->>= (λ r d. IsAimed p d) (λ s d. IsAimed p d) (check_child (kill_child sigterm c).1)
      check_first (check_child-IsAimed p _ (kill_child-IsAimed p sigterm c v))
      (λ r d w. check_first-IsAimed p r d w)
