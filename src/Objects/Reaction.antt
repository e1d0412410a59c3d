-- ===== src/Objects/Reaction.antt =====
-- `pdip_signal_handler` on the list of objects.
use win_pdip.Prelude.{
  ℕ, ◌+◌, ◌≤◌, ◌≡◌, ◌≢◌, ◌⊎◌, inl, inr, refl, sym, ap, subst, ◌∙◌, Bool, true, none, some, List, [],
  ◌∷◌, ◌++◌, length, length-append, ◌==◌, ==_iff, Bool-cases, arith, put, put_self, put_other,
}
use win_pdip.Child.{State, init, alive, zombie, dead, CInt, same}
use win_pdip.Objects.{Object, Objects}
use win_pdip.Objects.Links.{IsChain, Linked}
use win_pdip.Objects.Walks.{AllFail, walk_hit, walk_miss}
use win_pdip.Objects.Calls.{
  Ending, done, aborted, Handled, sig_handled, sig_error, sigchld, mark_zombie, signal_handler,
}

-- Whether the process of an object is the one of the signal.
abbrev pub is_of : CInt → Objects → ℕ → Bool
is_of pid w x = same pid (w.ctx x).pid

-- What the handler has done: the first object with the process is a zombie now, and nothing else has
-- changed; or no object has it, and nothing has changed; or the assertion fails, since the object
-- with the process was a zombie already.
pub data Reacted (pid : CInt) (w : Objects) (xs : List ℕ) : Ending Handled → Type 0 where
  marked :
      (us : List ℕ) (a : ℕ) (vs : List ℕ) (v : Objects)
      → xs ≡ us ++ (a ∷ vs)
      → AllFail (is_of pid w) us
      → is_of pid w a ≡ true
      → v ≡ record w { ctx = v.ctx }
      → v.ctx a ≡ record (w.ctx a) { state = zombie }
      → ((x : ℕ) → x ≢ a → v.ctx x ≡ w.ctx x)
      → Linked v xs
      → Reacted pid w xs (done sig_handled v)
  no_object : AllFail (is_of pid w) xs → Reacted pid w xs (done sig_error w)
  refused :
      (us : List ℕ) (a : ℕ) (vs : List ℕ)
      → xs ≡ us ++ (a ∷ vs)
      → is_of pid w a ≡ true
      → (w.ctx a).state ≡ zombie
      → Reacted pid w xs aborted

-- The first object that passes a test, or none does.
find-cases :
    (test : ℕ → Bool) (xs : List ℕ)
    → AllFail test xs
      ⊎ ((us : List ℕ) × (a : ℕ) × (vs : List ℕ) × (xs ≡ us ++ (a ∷ vs))
          × AllFail test us
          × (test a ≡ true))
find-cases test [] = inl tt
find-cases test (x ∷ xs) = elim (Bool-cases (test x)) [
  | inl pass ↦ inr ([], x, xs, refl, tt, pass)
  | inr other ↦ elim (find-cases test xs) [
    | inl fail ↦ inl (other, fail)
    | inr (us, a, vs, e, fail, pass) ↦ inr (x ∷ us, a, vs, ap (◌∷◌ x) e, (other, fail), pass)
  ]
]

-- A process that is dead for the object has no number there.
abbrev pub IsSettled : Object → Type 0
IsSettled o = o.state ≡ dead → o.pid ≡ none

abbrev pub AllSettled : Objects → List ℕ → Type 0
AllSettled w [] = Unit
AllSettled w (x ∷ xs) = IsSettled (w.ctx x) × AllSettled w xs

-- The state of an object is not a link.
relinked :
    (w : Objects) (xs : List ℕ) {ctx : ℕ → Object}
    → Linked w xs
    → Linked (record w { ctx = ctx }) xs
relinked w xs l = record { chain = l.chain; distinct = l.distinct }

mark_zombie-Reacted :
    (pid : ℕ) (w : Objects) (xs us : List ℕ) (a : ℕ) (vs : List ℕ) (st : State)
    → Linked w xs
    → xs ≡ us ++ (a ∷ vs)
    → AllFail (is_of (some pid) w) us
    → is_of (some pid) w a ≡ true
    → IsSettled (w.ctx a)
    → (w.ctx a).state ≡ st
    → Reacted (some pid) w xs (mark_zombie a w)
unfolding mark_zombie
mark_zombie-Reacted pid w xs us a vs alive l e fail pass settled is = rw is (
    marked us a vs _ e fail pass refl (put_self w.ctx a _) (λ x h. put_other w.ctx a _ x h)
      (relinked w xs l))
mark_zombie-Reacted pid w xs us a vs init l e fail pass settled is = rw is (
    marked us a vs _ e fail pass refl (put_self w.ctx a _) (λ x h. put_other w.ctx a _ x h)
      (relinked w xs l))
mark_zombie-Reacted pid w xs us a vs zombie l e fail pass settled is =
    rw is (refused us a vs e pass is)
mark_zombie-Reacted pid w xs us a vs dead l e fail pass settled is =
    absurd (cc (sym pass ∙ ap (same (some pid)) (settled is)))

AllSettled-at :
    (w : Objects) (us : List ℕ) (a : ℕ) (vs : List ℕ)
    → AllSettled w (us ++ (a ∷ vs))
    → IsSettled (w.ctx a)
AllSettled-at w [] a vs h = h.0
AllSettled-at w (u ∷ us) a vs h = AllSettled-at w us a vs h.1

-- pdip_signal_handler on a SIGCHLD of a process, where the pointers form a doubly linked list of
-- distinct objects, the fuel is their number or more, and dead objects have no process: the first
-- object with that process becomes a zombie, and no other field, object or variable changes; or no
-- object has it, the call reports an error and nothing changes; or the assertion fails, since an
-- object with it is a zombie already.
pub signal_handler-Reacted :
    (fuel pid : ℕ) (w : Objects) (xs : List ℕ)
    → Linked w xs
    → length xs ≤ fuel
    → AllSettled w xs
    → Reacted (some pid) w xs (signal_handler fuel sigchld (some (some pid)) w)
unfolding signal_handler
signal_handler-Reacted fuel pid w xs l enough settled = elim (find-cases (is_of (some pid) w) xs) [
  | inl fail ↦
      rw (walk_miss fuel w.next w.prev (is_of (some pid) w) none w.ctx_list xs l.chain enough fail)
        (no_object fail)
  | inr (us, a, vs, e, fail, pass) ↦
      rw
        (walk_hit fuel w.next w.prev (is_of (some pid) w) none w.ctx_list us a vs
          (subst (IsChain w.next w.prev none w.ctx_list) e l.chain)
          (omega (arith, length-append us (a ∷ vs), ap length e)) fail pass)
        (mark_zombie-Reacted pid w xs us a vs (w.ctx a).state l e fail pass
          (AllSettled-at w us a vs (subst (AllSettled w) e settled)) refl)
]

-- The same object as a zombie
zombie_at : ℕ → Objects → Objects
zombie_at a w = record w { ctx = put w.ctx a (record (w.ctx a) { state = zombie }) }

signal_handler-mark_zombie :
    (fuel pid a : ℕ) (w : Objects) (us vs : List ℕ)
    → Linked w (us ++ (a ∷ vs))
    → length us + 1 ≤ fuel
    → AllFail (is_of (some pid) w) us
    → is_of (some pid) w a ≡ true
    → signal_handler fuel sigchld (some (some pid)) w ≡ mark_zombie a w
unfolding signal_handler
signal_handler-mark_zombie fuel pid a w us vs l enough fail pass =
    rw
      (walk_hit fuel w.next w.prev (is_of (some pid) w) none w.ctx_list us a vs l.chain enough fail
        pass)
      refl

mark_zombie_alive :
    (a : ℕ) (w : Objects)
    → (w.ctx a).state ≡ alive
    → mark_zombie a w ≡ done sig_handled (zombie_at a w)
unfolding mark_zombie zombie_at
mark_zombie_alive a w e = rw e refl

mark_zombie_again : (a : ℕ) (w : Objects) → mark_zombie a (zombie_at a w) ≡ aborted
unfolding mark_zombie zombie_at
mark_zombie_again a w = rw (put_self w.ctx a (record (w.ctx a) { state = zombie })) refl

-- The processes are the same.
is_of-zombie_at :
    (pid : CInt) (a : ℕ) (w : Objects) (x : ℕ) → is_of pid (zombie_at a w) x ≡ is_of pid w x
unfolding zombie_at
is_of-zombie_at pid a w x = elim (Bool-cases (x == a)) [
  | inl e ↦ rw (e, (==_iff x a).0 e) refl
  | inr e ↦ rw e refl
]

AllFail-zombie_at :
    (pid : CInt) (a : ℕ) (w : Objects) (us : List ℕ)
    → AllFail (is_of pid w) us
    → AllFail (is_of pid (zombie_at a w)) us
AllFail-zombie_at pid a w [] h = tt
AllFail-zombie_at pid a w (u ∷ us) h =
    (is_of-zombie_at pid a w u ∙ h.0, AllFail-zombie_at pid a w us h.1)

zombie_at-Linked : (a : ℕ) (w : Objects) (xs : List ℕ) → Linked w xs → Linked (zombie_at a w) xs
unfolding zombie_at
zombie_at-Linked a w xs l = relinked w xs l

-- Two SIGCHLD of one process, where the pointers form a doubly linked list of distinct objects,
-- the fuel reaches the first object with that process, and it is alive: the first call of
-- pdip_signal_handler makes it a zombie, and the second fails an assertion.
pub signal_handler_twice :
    (fuel pid a : ℕ) (w : Objects) (us vs : List ℕ)
    → Linked w (us ++ (a ∷ vs))
    → length us + 1 ≤ fuel
    → AllFail (is_of (some pid) w) us
    → is_of (some pid) w a ≡ true
    → (w.ctx a).state ≡ alive
    → (v : Objects) × (signal_handler fuel sigchld (some (some pid)) w ≡ done sig_handled v)
      × (signal_handler fuel sigchld (some (some pid)) v ≡ aborted)
signal_handler_twice fuel pid a w us vs l enough fail pass is = (
  zombie_at a w,
  signal_handler-mark_zombie fuel pid a w us vs l enough fail pass ∙ mark_zombie_alive a w is,
  signal_handler-mark_zombie fuel pid a (zombie_at a w) us vs (zombie_at-Linked a w _ l) enough
        (AllFail-zombie_at (some pid) a w us fail) (is_of-zombie_at (some pid) a w a ∙ pass)
      ∙ mark_zombie_again a w,
)
