-- ===== src/Objects/Unlinking.antt =====
-- `pdip_unlink_ctx` takes the object out of the list, and leaves the others in their order.
use win_pdip.Prelude.{
  ℕ, ◌≡◌, ◌≢◌, ◌⊎◌, inl, inr, refl, sym, ap, subst, ◌∙◌, none, some, List, [], ◌∷◌, ◌++◌,
  append_assoc, ◌==◌, ==_iff, Bool-cases, arith, put, put_self, put_other,
}
use win_pdip.Objects.{Link, Objects, put_at, replace_head, unlink_ctx}
use win_pdip.Objects.Links.{
  IsChain, some_inj, Fresh, IsDistinct, Linked, put_at_other, at-Fresh, IsChain-put_next,
  IsChain-put_back,
}

pub Fresh-right : (a : ℕ) (us vs : List ℕ) → Fresh a (us ++ vs) → Fresh a vs
Fresh-right a [] vs f = f
Fresh-right a (u ∷ us) vs f = Fresh-right a us vs f.1

Fresh-remove :
    (x : ℕ) (us : List ℕ) (a : ℕ) (vs : List ℕ) → Fresh x (us ++ (a ∷ vs)) → Fresh x (us ++ vs)
Fresh-remove x [] a vs f = f.1
Fresh-remove x (u ∷ us) a vs f = (f.0, Fresh-remove x us a vs f.1)

pub IsDistinct-remove :
    (us : List ℕ) (a : ℕ) (vs : List ℕ) → IsDistinct (us ++ (a ∷ vs)) → IsDistinct (us ++ vs)
IsDistinct-remove [] a vs d = d.1
IsDistinct-remove (u ∷ us) a vs d = (Fresh-remove u us a vs d.0, IsDistinct-remove us a vs d.1)

-- What stands behind an object of the list.
IsChain-behind :
    (n p : ℕ → Link) (before at : Link) (us : List ℕ) (a : ℕ) (vs : List ℕ)
    → IsChain n p before at (us ++ (a ∷ vs))
    → IsChain n p (some a) (n a) vs
IsChain-behind n p before at [] a vs (e, back, rest) = rest
IsChain-behind n p before at (u ∷ us) a vs (e, back, rest) =
    IsChain-behind n p (some u) (n u) us a vs rest

pub IsDistinct-behind : (us vs : List ℕ) → IsDistinct (us ++ vs) → IsDistinct vs
IsDistinct-behind [] vs d = d
IsDistinct-behind (u ∷ us) vs d = IsDistinct-behind us vs d.1

-- The two stores that take an object out behind another.
IsChain-unlink :
    (n p : ℕ → Link) (before at : Link) (us : List ℕ) (c a : ℕ) (vs : List ℕ)
    → IsDistinct (us ++ (c ∷ a ∷ vs))
    → IsChain n p before at (us ++ (c ∷ a ∷ vs))
    → IsChain (put n c (n a)) (put_at p (n a) (some c)) before at (us ++ (c ∷ vs))
IsChain-unlink n p before at [] c a vs d (e, back, (e1, back1, rest)) = (
  e,
  put_at_other p (n a) (some c) c (at-Fresh n p (some a) (n a) vs c rest d.0.1) ∙ back,
  subst (λ l. IsChain (put n c (n a)) (put_at p (n a) (some c)) (some c) l vs)
      (sym (put_self n c (n a)))
      (IsChain-put_next n _ (some c) (n a) vs c (n a) d.0.1
        (IsChain-put_back n p (some a) (n a) vs (some c) d.1.1 rest)),
)
IsChain-unlink n p before at (u ∷ us) c a vs d (e, back, rest) = (
  e,
  put_at_other p (n a) (some c) u (at-Fresh n p (some a) (n a) vs u behind fresh) ∙ back,
  subst (λ l. IsChain (put n c (n a)) (put_at p (n a) (some c)) (some u) l (us ++ (c ∷ vs)))
      (sym (put_other n c (n a) u (Fresh-right u us (c ∷ a ∷ vs) d.0).0))
      (IsChain-unlink n p (some u) (n u) us c a vs d.1 rest),
)
  where
    fresh : Fresh u vs
    fresh = (Fresh-right u us (c ∷ a ∷ vs) d.0).1.1

    behind : IsChain n p (some a) (n a) vs
    behind = (IsChain-behind n p (some u) (n u) us c (a ∷ vs) rest).2

replace_head_same : (a : ℕ) (next : Link) → replace_head (some a) a next ≡ next
replace_head_same a next = ground arith

replace_head_other : (l : Link) (a : ℕ) (next : Link) → l ≢ some a → replace_head l a next ≡ l
replace_head_other none a next h = refl
replace_head_other (some b) a next h = elim (Bool-cases (b == a)) [
  | inl e ↦ absurd (h (ap some ((==_iff b a).0 e)))
  | inr e ↦ rw e refl
]

-- What is not in front of an object in the list is not at the head.
pub before-Fresh : (us : List ℕ) (a : ℕ) (vs : List ℕ) → IsDistinct (us ++ (a ∷ vs)) → Fresh a us
before-Fresh [] a vs d = tt
before-Fresh (u ∷ us) a vs d =
    ((λ e. (Fresh-right u us (a ∷ vs) d.0).0 (sym e)), before-Fresh us a vs d.1)

head_other :
    (n p : ℕ → Link) (before at : Link) (us : List ℕ) (c a : ℕ) (vs : List ℕ)
    → IsDistinct (us ++ (c ∷ a ∷ vs))
    → IsChain n p before at (us ++ (c ∷ a ∷ vs))
    → at ≢ some a
head_other n p before at [] c a vs d h e = d.0.0 (some_inj (sym h.0 ∙ e))
head_other n p before at (u ∷ us) c a vs d h e =
    (Fresh-right u us (c ∷ a ∷ vs) d.0).1.0 (some_inj (sym h.0 ∙ e))

-- The pointer back of an object behind another.
prev-behind :
    (n p : ℕ → Link) (before at : Link) (us : List ℕ) (c a : ℕ) (vs : List ℕ)
    → IsChain n p before at (us ++ (c ∷ a ∷ vs))
    → p a ≡ some c
prev-behind n p before at [] c a vs (e, back, (e1, back1, rest)) = back1
prev-behind n p before at (u ∷ us) c a vs (e, back, rest) =
    prev-behind n p (some u) (n u) us c a vs rest

-- The first object, or one behind another.
unlink_first : (a : ℕ) (w : Objects) (vs : List ℕ) → Linked w (a ∷ vs) → Linked (unlink_ctx a w) vs
unfolding unlink_ctx
unlink_first a w vs l = record {
  chain =
      rw (l.chain.0, l.chain.1, replace_head_same a (w.next a))
        (IsChain-put_back w.next w.prev (some a) (w.next a) vs none l.distinct.1 l.chain.2);
  distinct = l.distinct.1;
}

unlink_behind :
    (c a : ℕ) (w : Objects) (us vs : List ℕ)
    → Linked w (us ++ (c ∷ a ∷ vs))
    → Linked (unlink_ctx a w) (us ++ (c ∷ vs))
unfolding unlink_ctx
unlink_behind c a w us vs l = record {
  chain =
      rw (back, same, head)
        (IsChain-unlink w.next w.prev none w.ctx_list us c a vs l.distinct l.chain);
  distinct = subst IsDistinct (append_assoc us (c ∷ []) vs) (
      IsDistinct-remove (us ++ (c ∷ [])) a vs
        (subst IsDistinct (sym (append_assoc us (c ∷ []) (a ∷ vs))) l.distinct));
}
  where
    back : w.prev a ≡ some c
    back = prev-behind w.next w.prev none w.ctx_list us c a vs l.chain

    same : put_at w.next (some c) (w.next a) a ≡ w.next a
    same =
        put_other w.next c (w.next a) a
          (λ e. (IsDistinct-behind us (c ∷ a ∷ vs) l.distinct).0.0 (sym e))

    head : (next : Link) → replace_head w.ctx_list a next ≡ w.ctx_list
    head next =
        replace_head_other w.ctx_list a next
          (head_other w.next w.prev none w.ctx_list us c a vs l.distinct l.chain)

snoc-cases : (us : List ℕ) → (us ≡ []) ⊎ ((ts : List ℕ) × (c : ℕ) × (us ≡ ts ++ (c ∷ [])))
snoc-cases [] = inl refl
snoc-cases (u ∷ us) = elim (snoc-cases us) [
  | inl e ↦ inr ([], u, ap (◌∷◌ u) e)
  | inr (ts, c, e) ↦ inr (u ∷ ts, c, ap (◌∷◌ u) e)
]

-- pdip_unlink_ctx.
pub unlink_ctx-Linked :
    (a : ℕ) (w : Objects) (us vs : List ℕ)
    → Linked w (us ++ (a ∷ vs))
    → Linked (unlink_ctx a w) (us ++ vs)
unlink_ctx-Linked a w us vs l = elim (snoc-cases us) [
  | inl e ↦
      subst (λ ts. Linked (unlink_ctx a w) (ts ++ vs)) (sym e)
        (unlink_first a w vs (subst (λ ts. Linked w (ts ++ (a ∷ vs))) e l))
  | inr (ts, c, e) ↦
      subst (Linked (unlink_ctx a w)) (sym (ap (λ t. t ++ vs) e ∙ append_assoc ts (c ∷ []) vs)) (
        unlink_behind c a w ts vs
          (subst (Linked w) (ap (λ t. t ++ (a ∷ vs)) e ∙ append_assoc ts (c ∷ []) (a ∷ vs)) l))
]
