-- ===== src/Objects/Leaving.antt =====
-- The end of the objects: `pdip_child_fork` and `pdip_lib_exit`.
use win_pdip.Prelude.{
  ℕ, zero, suc, ◌≤◌, ◌≡◌, refl, ap, ◌∙◌, Bool, true, false, none, some, List, [], ◌∷◌, length,
  arith, put, put_self, put_other,
}
use win_pdip.Objects.{Object, Objects, init_ctx, free_resources, unlink_ctx}
use win_pdip.Objects.Links.{Fresh, Linked}
use win_pdip.Objects.Unlinking.{unlink_ctx-Linked}
use win_pdip.Objects.Removal.{clear_links-Linked}
use win_pdip.Objects.Calls.{done, clear_links, restore_action, forget_all, forgotten, child_fork}

abbrev pub AllReset : Objects → List ℕ → Type 0
AllReset w [] = Unit
AllReset w (x ∷ xs) = (w.ctx x ≡ init_ctx) × AllReset w xs

-- All objects are out of the list and reset, no signal was sent, and no process was waited for.
pub record Emptied (w : Objects) (xs : List ℕ) (v : Objects) : Type 0 where
  pub empty : v.ctx_list ≡ none
  pub all_reset : AllReset v xs
  pub others : (x : ℕ) → Fresh x xs → v.ctx x ≡ w.ctx x
  pub same_sent : v.sent ≡ w.sent
  pub same_waits : v.waits ≡ w.waits

-- One round of the loop of `pdip_child_fork`
forget : ℕ → Objects → Objects
forget a w = clear_links a (unlink_ctx a (free_resources a w))

forget-Linked : (a : ℕ) (w : Objects) (xs : List ℕ) → Linked w (a ∷ xs) → Linked (forget a w) xs
unfolding forget
forget-Linked a w xs l = clear_links-Linked a (unlink_ctx a (free_resources a w)) xs l.distinct.0 (
    unlink_ctx-Linked a (free_resources a w) [] xs
      (record { chain = l.chain; distinct = l.distinct }))

-- What the round does to the objects and the system
forget-effects :
    (a : ℕ) (w : Objects)
    → ((forget a w).ctx ≡ put w.ctx a init_ctx)
      × ((forget a w).sent ≡ w.sent)
      × ((forget a w).waits ≡ w.waits)
unfolding forget unlink_ctx
forget-effects a w = (refl, refl, refl)

forget_all-forget :
    (n a : ℕ) (w : Objects) → w.ctx_list ≡ some a → forget_all (suc n) w ≡ forget_all n (forget a w)
unfolding forget_all forget
forget_all-forget n a w e = rw e refl

forget_all-none : (n : ℕ) (w : Objects) → w.ctx_list ≡ none → forget_all n w ≡ done tt w
unfolding forget_all
forget_all-none zero w e = rw e refl
forget_all-none (suc n) w e = rw e refl

forget_all-Emptied :
    (n : ℕ) (w : Objects) (xs : List ℕ)
    → Linked w xs
    → length xs ≤ n
    → (v : Objects) × (forget_all n w ≡ done tt v) × Emptied w xs v
forget_all-Emptied n w [] l enough = (
  w,
  forget_all-none n w l.chain,
  record {
    empty = l.chain;
    all_reset = tt;
    others = λ x f. refl;
    same_sent = refl;
    same_waits = refl;
  },
)
forget_all-Emptied zero w (a ∷ xs) l enough = absurd (omega arith)
forget_all-Emptied (suc n) w (a ∷ xs) l enough =
    let (v, e, left) =
      forget_all-Emptied n (forget a w) xs (forget-Linked a w xs l) (omega arith) in
    let (ctx, sent, waits) = forget-effects a w in
    (
      v,
      forget_all-forget n a w l.chain.0 ∙ e,
      record {
        empty = left.empty;
        all_reset = (
          left.others a l.distinct.0 ∙ ap (λ (f : ℕ → Object). f a) ctx ∙ put_self w.ctx a init_ctx,
          left.all_reset,
        );
        others = λ x f.
            left.others x f.1 ∙ ap (λ (g : ℕ → Object). g x) ctx ∙ put_other w.ctx a init_ctx x f.0;
        same_sent = left.same_sent ∙ sent;
        same_waits = left.same_waits ∙ waits;
      },
    )

-- The handler is given back first.
restore_action-effects :
    (restored : Bool) (w : Objects) (xs : List ℕ)
    → Linked w xs
    → Linked (restore_action restored w) xs
      × ((restore_action restored w).ctx ≡ w.ctx)
      × ((restore_action restored w).sent ≡ w.sent)
      × ((restore_action restored w).waits ≡ w.waits)
restore_action-effects false w xs l = (l, refl, refl, refl)
restore_action-effects true w xs l =
    (record { chain = l.chain; distinct = l.distinct }, refl, refl, refl)

-- pdip_child_fork, where the pointers form a doubly linked list of distinct objects and the fuel
-- is their number or more: it returns with an empty list and the number of CPUs 0, every object
-- that was in the list is reset and no other is touched, no signal is sent and no process is
-- waited for.
pub child_fork-Emptied :
    (fuel : ℕ) (restored : Bool) (w : Objects) (xs : List ℕ)
    → Linked w xs
    → length xs ≤ fuel
    → (v : Objects) × (child_fork fuel restored w ≡ done tt v) × Emptied w xs v × (v.nb_cpu ≡ 0)
unfolding child_fork
child_fork-Emptied fuel restored w xs l enough =
    let (linked, ctx, sent, waits) = restore_action-effects restored w xs l in
    let (v, e, left) = forget_all-Emptied fuel (restore_action restored w) xs linked enough in
    (
      record v { nb_cpu = 0; debug_level = 0 },
      ap forgotten e,
      record {
        empty = left.empty;
        all_reset = reset v xs left.all_reset;
        others = λ x f. left.others x f ∙ ap (λ (g : ℕ → Object). g x) ctx;
        same_sent = left.same_sent ∙ sent;
        same_waits = left.same_waits ∙ waits;
      },
      refl,
    )
  where
    reset :
        (v : Objects) (ys : List ℕ)
        → AllReset v ys
        → AllReset (record v { nb_cpu = 0; debug_level = 0 }) ys
    reset v [] h = tt
    reset v (y ∷ ys) h = (h.0, reset v ys h.1)
