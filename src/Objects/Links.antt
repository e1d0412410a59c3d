-- ===== src/Objects/Links.antt =====
-- What the list of the objects is: the addresses that the pointers run through, each once, with the
-- pointers back; and an object put in front of it.
use win_pdip.Prelude.{
  ℕ, ◌≡◌, ◌≢◌, refl, sym, ap, subst, ◌∙◌, none, some, List, [], ◌∷◌, put, put_self, put_other,
}
use win_pdip.Objects.{Link, Object, Objects, put_at, insert}

-- From `at` on the pointers run through the addresses, with the pointers back from each to the one
-- before it.
abbrev pub IsChain : (ℕ → Link) → (ℕ → Link) → Link → Link → List ℕ → Type 0
IsChain next prev before at [] = at ≡ none
IsChain next prev before at (a ∷ xs) =
    (at ≡ some a) × (prev a ≡ before) × IsChain next prev (some a) (next a) xs

-- The address is not in the list.
abbrev pub Fresh : ℕ → List ℕ → Type 0
Fresh a [] = Unit
Fresh a (b ∷ bs) = (a ≢ b) × Fresh a bs

abbrev pub IsDistinct : List ℕ → Type 0
IsDistinct [] = Unit
IsDistinct (a ∷ xs) = Fresh a xs × IsDistinct xs

-- The objects linked are those at the addresses, in this order, each once.
pub record Linked (w : Objects) (xs : List ℕ) : Type 0 where
  pub chain : IsChain w.next w.prev none w.ctx_list xs
  pub distinct : IsDistinct xs

-- A chain reads its own pointers only.
pub IsChain-put_next :
    (n p : ℕ → Link) (before at : Link) (xs : List ℕ) (a : ℕ) (v : Link)
    → Fresh a xs
    → IsChain n p before at xs
    → IsChain (put n a v) p before at xs
IsChain-put_next n p before at [] a v f h = h
IsChain-put_next n p before at (x ∷ xs) a v f (e, back, rest) = (
  e,
  back,
  subst (λ l. IsChain (put n a v) p (some x) l xs) (sym (put_other n a v x (λ q. f.0 (sym q))))
      (IsChain-put_next n p (some x) (n x) xs a v f.1 rest),
)

pub IsChain-put_prev :
    (n p : ℕ → Link) (before at : Link) (xs : List ℕ) (a : ℕ) (v : Link)
    → Fresh a xs
    → IsChain n p before at xs
    → IsChain n (put p a v) before at xs
IsChain-put_prev n p before at [] a v f h = h
IsChain-put_prev n p before at (x ∷ xs) a v f (e, back, rest) = (
  e,
  put_other p a v x (λ q. f.0 (sym q)) ∙ back,
  IsChain-put_prev n p (some x) (n x) xs a v f.1 rest,
)

pub some_inj : {a b : ℕ} → ◌≡◌ {A = Link} (some a) (some b) → a ≡ b
some_inj e = cc e

-- With another object in front of the list, the former first one points back to it.
pub IsChain-put_back :
    (n p : ℕ → Link) (before at : Link) (xs : List ℕ) (v : Link)
    → IsDistinct xs
    → IsChain n p before at xs
    → IsChain n (put_at p at v) v at xs
IsChain-put_back n p before at [] v d h = h
IsChain-put_back n p before (some a) (x ∷ xs) v d (e, back, rest) = (
  e,
  subst (λ y. put p a v y ≡ v) (some_inj e) (put_self p a v),
  IsChain-put_prev n p (some x) (n x) xs a v (subst (λ y. Fresh y xs) (sym (some_inj e)) d.0) rest,
)
IsChain-put_back n p before none (x ∷ xs) v d (e, back, rest) = absurd (cc e)

pub put_at_other : (f : ℕ → Link) (l v : Link) (x : ℕ) → l ≢ some x → put_at f l v x ≡ f x
put_at_other f none v x h = refl
put_at_other f (some a) v x h = put_other f a v x (λ e. h (ap some (sym e)))

-- The first object of the list is one of it.
pub at-Fresh :
    (n p : ℕ → Link) (before at : Link) (xs : List ℕ) (a : ℕ)
    → IsChain n p before at xs
    → Fresh a xs
    → at ≢ some a
at-Fresh n p before at [] a h f e = cc (h, e)
at-Fresh n p before at (x ∷ xs) a h f e = f.0 (some_inj (sym e ∙ h.0))

pub insert-Linked :
    (a : ℕ) (o : Object) (w : Objects) (xs : List ℕ)
    → Fresh a xs
    → Linked w xs
    → Linked (insert a o w) (a ∷ xs)
unfolding insert
insert-Linked a o w xs f l = record { chain = (refl, first, rest); distinct = (f, l.distinct) }
  where
    first : put_at (put w.prev a none) w.ctx_list (some a) a ≡ none
    first =
        put_at_other (put w.prev a none) w.ctx_list (some a) a
          (at-Fresh w.next w.prev none w.ctx_list xs a l.chain f)
        ∙ put_self w.prev a none

    rest :
        IsChain
          (put w.next a w.ctx_list)
          (put_at (put w.prev a none) w.ctx_list (some a))
          (some a)
          (put w.next a w.ctx_list a)
          xs
    rest =
        subst
          (λ at.
            IsChain (put w.next a w.ctx_list) (put_at (put w.prev a none) w.ctx_list (some a))
              (some a) at xs)
          (sym (put_self w.next a w.ctx_list))
          (IsChain-put_next w.next _ (some a) w.ctx_list xs a w.ctx_list f (
            IsChain-put_back w.next (put w.prev a none) none w.ctx_list xs (some a) l.distinct
              (IsChain-put_prev w.next w.prev none w.ctx_list xs a none f l.chain)))
