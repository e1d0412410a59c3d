-- ===== src/Objects/Removal.antt =====
-- `pdip_delete`: the walk to the object, the end of its process, and the list behind it.
use win_pdip.Prelude.{
  ℕ, ◌+◌, ◌≤◌, ◌≡◌, ◌≢◌, inl, inr, refl, sym, subst, ◌∙◌, Option, none, some, List, [], ◌∷◌, ◌++◌,
  length, ◌==◌, Bool-cases, arith, put_self, put_other,
}
use win_pdip.Outcome.{enoent}
use win_pdip.Child.{
  State, init, alive, zombie, dead, CInt, same, Child, Step, wait_child, terminate_child,
}
use win_pdip.Child.Reports.{Gives}
use win_pdip.Child.Signals.{AllTo, IsAimed, terminate_child-IsAimed, wait_child-IsAimed}
use win_pdip.Objects.{Objects, init_ctx, free_resources, unlink_ctx}
use win_pdip.Objects.Links.{IsChain, Fresh, IsDistinct, Linked, IsChain-put_next, IsChain-put_prev}
use win_pdip.Objects.Unlinking.{before-Fresh, IsDistinct-behind, unlink_ctx-Linked}
use win_pdip.Objects.Calls.{
  Ending, done, waiting, child_of, with_child, clear_links, release, terminated, waited, finish,
  delete,
}
use win_pdip.Objects.Walks.{AllFail, walk_hit, walk_miss}

Fresh-AllFail : (a : ℕ) (xs : List ℕ) → Fresh a xs → AllFail (λ x. a == x) xs
Fresh-AllFail a [] f = tt
Fresh-AllFail a (x ∷ xs) f = ((ground (arith, f.0)), Fresh-AllFail a xs f.1)

Fresh-append : (a : ℕ) (us vs : List ℕ) → Fresh a us → Fresh a vs → Fresh a (us ++ vs)
Fresh-append a [] vs f g = g
Fresh-append a (u ∷ us) vs f g = (f.0, Fresh-append a us vs f.1 g)

-- An object of a list of distinct ones is not among the others.
pub others-Fresh :
    (us : List ℕ) (a : ℕ) (vs : List ℕ) → IsDistinct (us ++ (a ∷ vs)) → Fresh a (us ++ vs)
others-Fresh us a vs d =
    Fresh-append a us vs (before-Fresh us a vs d) (IsDistinct-behind us (a ∷ vs) d).0

-- The links of an object that is not in the list
pub clear_links-Linked :
    (a : ℕ) (w : Objects) (xs : List ℕ) → Fresh a xs → Linked w xs → Linked (clear_links a w) xs
clear_links-Linked a w xs f l = record {
  chain =
      IsChain-put_next w.next _ none w.ctx_list xs a none f
        (IsChain-put_prev w.next w.prev none w.ctx_list xs a none f l.chain);
  distinct = l.distinct;
}

-- How `pdip_delete` of an object ends: the object is out of the list and reset, and the others
-- are as they were; or it is still there, since its process, which has ended, cannot be waited for.
-- The signals sent have the property `P`.
pub data Deleted (P : List (ℕ × ℕ) → Type 0) (a : ℕ) (w : Objects) (us vs : List ℕ)
    : Ending (CInt × Option ℕ) → Type 0 where
  gone :
      (s : ℕ) (v : Objects)
      → Linked v (us ++ vs)
      → v.ctx a ≡ init_ctx
      → ((x : ℕ) → x ≢ a → v.ctx x ≡ w.ctx x)
      → P v.sent
      → Deleted P a w us vs (done (some 0, some s) v)
  still_there :
      (v : Objects)
      → (w.ctx a).state ≡ zombie
      → Linked v (us ++ (a ∷ vs))
      → ((x : ℕ) → x ≢ a → v.ctx x ≡ w.ctx x)
      → P v.sent
      → Deleted P a w us vs (done (none, none) v)
  blocked : Deleted P a w us vs waiting

-- Only the object at an address has changed, not the links.
pub record Beside (a : ℕ) (w v : Objects) : Type 0 where
  pub same_list : v.ctx_list ≡ w.ctx_list
  pub same_next : v.next ≡ w.next
  pub same_prev : v.prev ≡ w.prev
  pub others : (x : ℕ) → x ≢ a → v.ctx x ≡ w.ctx x

Beside-Linked : (a : ℕ) (w v : Objects) (xs : List ℕ) → Beside a w v → Linked w xs → Linked v xs
Beside-Linked a w v xs b l = record {
  chain =
      subst (λ n. IsChain n v.prev none v.ctx_list xs) (sym b.same_next)
        (subst (λ p. IsChain w.next p none v.ctx_list xs) (sym b.same_prev)
          (subst (λ h. IsChain w.next w.prev none h xs) (sym b.same_list) l.chain));
  distinct = l.distinct;
}

with_child-Beside : (a : ℕ) (c : Child) (w : Objects) → Beside a w (with_child a c w)
with_child-Beside a c w = record {
  same_list = refl;
  same_next = refl;
  same_prev = refl;
  others = λ x h. put_other w.ctx a _ x h;
}

unchanged : (a : ℕ) (w : Objects) → Beside a w w
unchanged a w = record {
  same_list = refl;
  same_next = refl;
  same_prev = refl;
  others = λ x h. refl;
}

-- The end of the call.
release-Linked :
    (a : ℕ) (w : Objects) (us vs : List ℕ)
    → Linked w (us ++ (a ∷ vs))
    → Linked (clear_links a (free_resources a (unlink_ctx a w))) (us ++ vs)
release-Linked a w us vs l =
    clear_links-Linked a (free_resources a (unlink_ctx a w)) (us ++ vs)
      (others-Fresh us a vs l.distinct) (record { chain = out.chain; distinct = out.distinct })
  where
    out : Linked (unlink_ctx a w) (us ++ vs)
    out = unlink_ctx-Linked a w us vs l

release-Deleted :
    (P : List (ℕ × ℕ) → Type 0) (a s : ℕ) (w v : Objects) (us vs : List ℕ)
    → Linked w (us ++ (a ∷ vs))
    → Beside a w v
    → P v.sent
    → Deleted P a w us vs (release a s v)
unfolding release unlink_ctx
release-Deleted P a s w v us vs l b aimed =
    gone s _ (release-Linked a v us vs (Beside-Linked a w v _ b l)) (put_self v.ctx a init_ctx)
      (λ x h. put_other v.ctx a init_ctx x h ∙ b.others x h) aimed

terminated-Deleted :
    (P : List (ℕ × ℕ) → Type 0) (a : ℕ) (w : Objects) (us vs : List ℕ) (r : Step ℕ)
    → Linked w (us ++ (a ∷ vs))
    → Gives (λ s d. P d.sent) r
    → Deleted P a w us vs (terminated a w r)
terminated-Deleted P a w us vs (Step.done n c) l v =
    release-Deleted P a n w (with_child a c w) us vs l (with_child-Beside a c w) v
terminated-Deleted P a w us vs Step.waiting l v = blocked

waited-Deleted :
    (P : List (ℕ × ℕ) → Type 0) (a : ℕ) (w : Objects) (us vs : List ℕ) (r : Step (CInt × ℕ))
    → Linked w (us ++ (a ∷ vs))
    → (w.ctx a).state ≡ zombie
    → Gives (λ s d. P d.sent) r
    → Deleted P a w us vs (waited a w r)
waited-Deleted P a w us vs (Step.done (rc, n) c) l z v = elim (Bool-cases (same rc (some 0))) [
  | inl success ↦
      rw success (release-Deleted P a n w (with_child a c w) us vs l (with_child-Beside a c w) v)
  | inr failure ↦ rw failure (
      still_there (with_child a c w) z
        (Beside-Linked a w (with_child a c w) _ (with_child-Beside a c w) l)
        (λ x h. put_other w.ctx a _ x h) v)
]
waited-Deleted P a w us vs Step.waiting l z v = blocked

finish-Deleted :
    (P : List (ℕ × ℕ) → Type 0) (a : ℕ) (w : Objects) (us vs : List ℕ) (st : State)
    → (w.ctx a).state ≡ st
    → Linked w (us ++ (a ∷ vs))
    → P w.sent
    → Gives (λ s d. P d.sent) (terminate_child (child_of a w))
    → Gives (λ s d. P d.sent) (wait_child (child_of a w))
    → Deleted P a w us vs (finish a st w)
unfolding finish
finish-Deleted P a w us vs alive e l v t c = terminated-Deleted P a w us vs _ l t
finish-Deleted P a w us vs zombie e l v t c = waited-Deleted P a w us vs _ l e c
finish-Deleted P a w us vs dead e l v t c = release-Deleted P a _ w w us vs l (unchanged a w) v
finish-Deleted P a w us vs init e l v t c = release-Deleted P a _ w w us vs l (unchanged a w) v

pub delete-finish :
    (fuel a : ℕ) (w : Objects) (us vs : List ℕ)
    → Linked w (us ++ (a ∷ vs))
    → length us + 1 ≤ fuel
    → delete fuel (some a) w ≡ finish a (w.ctx a).state w
unfolding delete
delete-finish fuel a w us vs l enough =
    rw
      (walk_hit fuel w.next w.prev (λ x. a == x) none w.ctx_list us a vs l.chain enough
        (Fresh-AllFail a us (before-Fresh us a vs l.distinct)) (ground arith))
      refl

Gives-weaken :
    {A : Type 0} (P Q : A → Child → Type 0) (r : Step A)
    → ((x : A) (c : Child) → P x c → Q x c)
    → Gives P r
    → Gives Q r
Gives-weaken P Q (Step.done x c) f h = f x c h
Gives-weaken P Q Step.waiting f h = tt

Gives-all :
    {A : Type 0} (Q : A → Child → Type 0) (r : Step A) → ((x : A) (c : Child) → Q x c) → Gives Q r
Gives-all Q (Step.done x c) f = f x c
Gives-all Q Step.waiting f = tt

-- pdip_delete of an object of the list, where the pointers form a doubly linked list of distinct
-- objects and there is enough fuel to reach it: it waits for the process, or the object is out of
-- the list, reset, and the others stand there in their order and unchanged with correct pointers
-- both ways; or its process had ended and cannot be waited for, the call fails and the object
-- stays. Where the signals sent until then went to the process of the object only, so do those
-- that the call sends.
pub delete-Deleted :
    (fuel p a : ℕ) (w : Objects) (us vs : List ℕ)
    → Linked w (us ++ (a ∷ vs))
    → length us + 1 ≤ fuel
    → IsAimed p (child_of a w)
    → Deleted (AllTo p) a w us vs (delete fuel (some a) w)
delete-Deleted fuel p a w us vs l enough v =
    subst (Deleted (AllTo p) a w us vs) (sym (delete-finish fuel a w us vs l enough)) (
      finish-Deleted (AllTo p) a w us vs (w.ctx a).state refl l v.signals
        (Gives-weaken (λ s d. IsAimed p d) (λ s d. AllTo p d.sent) (terminate_child (child_of a w))
          (λ x c h. h.signals) (terminate_child-IsAimed p (child_of a w) v))
        (Gives-weaken (λ s d. IsAimed p d) (λ s d. AllTo p d.sent) (wait_child (child_of a w))
          (λ x c h. h.signals) (wait_child-IsAimed p (child_of a w) v)))

-- Whatever the signals are.
abbrev pub AnySent : List (ℕ × ℕ) → Type 0
AnySent sent = Unit

pub delete-any :
    (fuel a : ℕ) (w : Objects) (us vs : List ℕ)
    → Linked w (us ++ (a ∷ vs))
    → length us + 1 ≤ fuel
    → Deleted AnySent a w us vs (delete fuel (some a) w)
delete-any fuel a w us vs l enough =
    subst (Deleted AnySent a w us vs) (sym (delete-finish fuel a w us vs l enough)) (
      finish-Deleted AnySent a w us vs (w.ctx a).state refl l tt
        (Gives-all (λ s d. Unit) (terminate_child (child_of a w)) (λ x c. tt))
        (Gives-all (λ s d. Unit) (wait_child (child_of a w)) (λ x c. tt)))

-- A pointer that is not an object of the list.
pub delete_unknown :
    (fuel a : ℕ) (w : Objects) (xs : List ℕ)
    → Linked w xs
    → length xs ≤ fuel
    → Fresh a xs
    → delete fuel (some a) w ≡ done (none, none) (record w { errno = enoent })
unfolding delete
delete_unknown fuel a w xs l enough f =
    rw
      (walk_miss fuel w.next w.prev (λ x. a == x) none w.ctx_list xs l.chain enough
        (Fresh-AllFail a xs f))
      refl
