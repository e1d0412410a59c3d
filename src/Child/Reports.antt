-- ===== src/Child/Reports.antt =====
-- What pdip_status reports.
use win_pdip.Prelude.{
  ℕ, ◌<◌, ◌≡◌, refl, subst, ap, ◌∙◌, Bool, true, false, Option, none, some, List, [], ◌∷◌, arith,
  Bool-cases, inl, inr,
}
use win_pdip.Outcome.{Errno, eperm, eagain}
use win_pdip.Child.{
  State, init, alive, zombie, dead, WaitReply, interrupted, failed, running, ended, CInt, same,
  Child, Step, done, waiting, ◌>>=◌, is_dead, is_init, wait_loop, reap, wait_child, check_child,
  report_wait, report_check, status,
}

-- `waitpid` gives the number of a child, which is above 1, and 0 with WNOHANG only.
abbrev pub Documented : Bool → List WaitReply → Type 0
Documented blocking [] = Unit
Documented blocking (ended p s ∷ ws) = (1 < p) × Documented blocking ws
Documented blocking (running ∷ ws) = (blocking ≡ false) × Documented blocking ws
Documented blocking (_ ∷ ws) = Documented blocking ws

-- The call returns, with the property, or waits.
abbrev pub Gives : {A : Type 0} → (A → Child → Type 0) → Step A → Type 0
Gives P (done a c) = P a c
Gives P waiting = Unit

pub Gives->>= :
    {A B : Type 0} (P : A → Child → Type 0) (Q : B → Child → Type 0) (r : Step A)
    (f : A → Child → Step B)
    → Gives P r
    → ((a : A) (c : Child) → P a c → Gives Q (f a c))
    → Gives Q (r >>= f)
Gives->>= P Q (done a c) f h k = k a c h
Gives->>= P Q waiting f h k = tt

-- The loop: the code 0 comes with WNOHANG only, and 1 never.
abbrev Waited : Bool → (CInt × ℕ) → Child → Type 0
Waited blocking r c = (same r.0 (some 0) ≡ true → blocking ≡ false) × (same r.0 (some 1) ≡ false)

wait_loop-Waited :
    (blocking : Bool) (n : ℕ) (c : Child) (ws : List WaitReply)
    → Documented blocking ws
    → Gives (Waited blocking) (wait_loop n c ws)
unfolding wait_loop
wait_loop-Waited blocking n c [] h = tt
wait_loop-Waited blocking n c (interrupted ∷ ws) h = wait_loop-Waited blocking n c ws h
wait_loop-Waited blocking n c (failed e ∷ ws) h = (λ q. ground arith, refl)
wait_loop-Waited blocking n c (running ∷ ws) h = (λ q. h.0, refl)
wait_loop-Waited blocking n c (ended p s ∷ ws) h = (λ q. ground arith, ground arith)

-- The status that is reported is the one that the object keeps, and the object is dead.
abbrev Reported : (CInt × Option ℕ) → Child → Type 0
Reported r c = (s : ℕ) → r.1 ≡ some s → (c.state ≡ dead) × (c.status ≡ s)

some_inj : (a b : ℕ) → some a ≡ some b → a ≡ b
some_inj a b e = ground arith

none-Reported : (c : Child) → Reported (none, none) c
none-Reported c s e = absurd (ground arith)

reap_wait-Reported :
    (pid : CInt) (r : CInt × ℕ) (c : Child)
    → Waited true r c
    → Gives Reported (reap pid 0 r c >>= report_wait)
reap_wait-Reported pid (rc, n) c h = elim (Bool-cases (same pid rc)) [
  | inl child ↦ rw child (λ s e. (refl, some_inj n s e))
  | inr other ↦
      let not_0 : same rc (some 0) ≡ false = ground (arith, h.0) in
      rw (other, not_0) (λ s e. absurd (ground arith))
]

reap_check-Reported :
    (pid : CInt) (r : CInt × ℕ) (c : Child)
    → Waited false r c
    → Gives Reported (reap pid 1 r c >>= report_check)
reap_check-Reported pid (rc, n) c h = elim (Bool-cases (same pid rc)) [
  | inl child ↦ rw child (λ s e. (refl, some_inj n s e))
  | inr other ↦
      rw (other, h.1)
        (elim (Bool-cases (same rc (some 0))) [
          | inl zero_code ↦ rw zero_code (none-Reported (record c { errno = eagain }))
          | inr more ↦ rw more (λ s e. absurd (ground arith))
        ])
]

Gives-chain :
    {A B C : Type 0} (P : A → Child → Type 0) (Q : C → Child → Type 0) (r : Step A)
    (f : A → Child → Step B) (g : B → Child → Step C)
    → Gives P r
    → ((a : A) (c : Child) → P a c → Gives Q (f a c >>= g))
    → Gives Q ((r >>= f) >>= g)
Gives-chain P Q (done a c) f g h k = k a c h
Gives-chain P Q waiting f g h k = tt

dead_is : (s : State) → is_dead s ≡ true → s ≡ dead
dead_is init e = absurd (ground arith)
dead_is alive e = absurd (ground arith)
dead_is zombie e = absurd (ground arith)
dead_is dead e = refl

dead_status : (c : Child) → is_dead c.state ≡ true → Reported (some 0, some c.status) c
dead_status c e s f = (dead_is c.state e, some_inj c.status s f)

status-Reported :
    (blocking : Bool) (c : Child) → Documented blocking c.waits → Gives Reported (status blocking c)
unfolding status wait_child check_child
status-Reported true c h = elim (Bool-cases (is_dead c.state)) [
  | inl gone ↦ rw gone (dead_status c gone)
  | inr other ↦ rw other (
      Gives-chain (Waited true) Reported (wait_loop c.status c c.waits) (reap c.pid 0) report_wait
        (wait_loop-Waited true c.status c c.waits h) (λ r d w. reap_wait-Reported c.pid r d w))
]
status-Reported false c h = elim (Bool-cases (is_dead c.state)) [
  | inl gone ↦ rw gone (dead_status c gone)
  | inr other ↦ elim (Bool-cases (is_init c.state)) [
    | inl new ↦ rw (other, new) (none-Reported (record c { errno = eperm }))
    | inr started ↦
        rw (other, started)
          (Gives-chain (Waited false) Reported (wait_loop c.status c c.waits) (reap c.pid 1)
            report_check (wait_loop-Waited false c.status c c.waits h)
            (λ r d w. reap_check-Reported c.pid r d w))
  ]
]

-- A dead object is reported without a call of the system, and nothing changes.
status_again :
    (blocking : Bool) (c : Child)
    → is_dead c.state ≡ true
    → status blocking c ≡ done (some 0, some c.status) c
unfolding status wait_child check_child
status_again true c e = rw e refl
status_again false c e = rw e refl

Gives-done :
    {A : Type 0} (P : A → Child → Type 0) (r : Step A) {a : A} {c : Child}
    → Gives P r
    → r ≡ done a c
    → P a c
Gives-done P r h e = subst (Gives P) e h

-- Where pdip_status reports a status once, with answers of waitpid as documented (0 with WNOHANG
-- only, and else the number of a child, which is above 1), the object is dead and keeps that
-- status: every later call, blocking or not, reports the same with success and changes nothing.
pub status_stable :
    (blocking again : Bool) (c d : Child) (rc : CInt) (s : ℕ)
    → Documented blocking c.waits
    → status blocking c ≡ done (rc, some s) d
    → (d.state ≡ dead) × (status again d ≡ done (some 0, some s) d)
status_stable blocking again c d rc s h e =
    let (gone, same_status) =
      Gives-done Reported (status blocking c) (status-Reported blocking c h) e s refl in
    (
      gone,
      status_again again d (ap is_dead gone) ∙ ap (λ (n : ℕ). done (some 0, some n) d) same_status,
    )

-- pdip_status of an object that has never had a program, where waitpid fails: not blocking it
-- fails with EPERM; blocking it reports success and the object becomes dead.
pub status_never_started :
    (c : Child) (e : Errno) (ws : List WaitReply)
    → c.state ≡ init
    → c.pid ≡ none
    → c.waits ≡ failed e ∷ ws
    → (status false c ≡ done (none, none) (record c { errno = eperm }))
      × (status true c
          ≡ done
              (some 0, some c.status)
              (record c { state = dead; pid = none; errno = e; waits = ws }))
unfolding status wait_child check_child wait_loop
status_never_started c e ws i p w =
    let not_dead : is_dead c.state ≡ false = ap is_dead i in
    let new : is_init c.state ≡ true = ap is_init i in
    (rw (not_dead, new) refl, rw (not_dead, w) (rw p refl))
