-- ===== src/Objects/Exit.antt =====
-- The end of the program: `pdip_lib_exit` deletes the objects that are left.
use win_pdip.Prelude.{
  ℕ, zero, suc, ◌≤◌, ◌≡◌, ◌≢◌, refl, sym, ap, subst, ◌∙◌, Option, none, some, List, [], ◌∷◌, length,
  replicate, arith, put_self,
}
use win_pdip.Outcome.{Errno}
use win_pdip.Child.{zombie, CInt, Child, WaitReply, failed, Step, wait_child, wait_loop}
use win_pdip.Objects.{Object, Objects}
use win_pdip.Objects.Links.{Fresh, Linked}
use win_pdip.Objects.Removal.{
  Deleted, gone, still_there, blocked, AnySent, delete-any, delete-finish,
}
use win_pdip.Objects.Calls.{
  Ending, done, waiting, out_of_fuel, child_of, with_child, waited, finish, delete, after_delete,
  exit_head, lib_exit,
}

-- A zombie whose process cannot be waited for, as where the program has waited for it itself, stays
-- in the list.
zombie_kept : ℕ → Errno → List WaitReply → Objects → Objects
zombie_kept a e ws w = with_child a (record (child_of a w) { errno = e; waits = ws }) w

wait_child_failed :
    (c : Child) (p : ℕ) (e : Errno) (ws : List WaitReply)
    → c.state ≡ zombie
    → c.pid ≡ some p
    → c.waits ≡ failed e ∷ ws
    → wait_child c ≡ Step.done (none, c.status) (record c { errno = e; waits = ws })
unfolding wait_child wait_loop
wait_child_failed c p e ws z q h = rw (z, h, q) refl

delete-zombie_kept :
    (fuel a p : ℕ) (w : Objects) (xs : List ℕ) (e : Errno) (ws : List WaitReply)
    → Linked w (a ∷ xs)
    → 1 ≤ fuel
    → (w.ctx a).state ≡ zombie
    → (w.ctx a).pid ≡ some p
    → w.waits ≡ failed e ∷ ws
    → delete fuel (some a) w ≡ done (none, none) (zombie_kept a e ws w)
unfolding finish zombie_kept
delete-zombie_kept fuel a p w xs e ws l enough z q h =
    delete-finish fuel a w [] xs l enough
    ∙ ap (λ st. finish a st w) z
    ∙ ap (waited a w) (wait_child_failed (child_of a w) p e ws z q h)

zombie_kept-same :
    (a : ℕ) (e : Errno) (ws : List WaitReply) (w : Objects) (xs : List ℕ)
    → Linked w xs
    → Linked (zombie_kept a e ws w) xs
      × (((zombie_kept a e ws w).ctx a).state ≡ (w.ctx a).state)
      × (((zombie_kept a e ws w).ctx a).pid ≡ (w.ctx a).pid)
      × ((zombie_kept a e ws w).waits ≡ ws)
unfolding zombie_kept
zombie_kept-same a e ws w xs l = (
  record { chain = l.chain; distinct = l.distinct },
  ap (λ (o : Object). o.state) (put_self w.ctx a _),
  ap (λ (o : Object). o.pid) (put_self w.ctx a _),
  refl,
)

lib_exit-after_delete :
    (n fuel a : ℕ) (w : Objects)
    → w.ctx_list ≡ some a
    → lib_exit (suc n) fuel w ≡ after_delete (delete fuel (some a) w) (λ v. lib_exit n fuel v)
unfolding lib_exit exit_head
lib_exit-after_delete n fuel a w h = ap (λ l. exit_head l fuel w (λ v. lib_exit n fuel v)) h

-- pdip_lib_exit, where the first object of a doubly linked list of distinct objects is a zombie
-- with a process and every call of waitpid fails, runs out of any number of rounds.
pub lib_exit_endless :
    (n fuel a p : ℕ) (w : Objects) (xs : List ℕ) (e : Errno)
    → Linked w (a ∷ xs)
    → 1 ≤ fuel
    → (w.ctx a).state ≡ zombie
    → (w.ctx a).pid ≡ some p
    → w.waits ≡ replicate n (failed e)
    → lib_exit n fuel w ≡ out_of_fuel
unfolding lib_exit
lib_exit_endless zero fuel a p w xs e l enough z q h = rw l.chain.0 refl
lib_exit_endless (suc n) fuel a p w xs e l enough z q h =
    let (linked, state, pid, waits) = zombie_kept-same a e (replicate n (failed e)) w (a ∷ xs) l in
    lib_exit-after_delete n fuel a w l.chain.0
    ∙ ap (λ r. after_delete r (λ v. lib_exit n fuel v))
        (delete-zombie_kept fuel a p w xs e (replicate n (failed e)) l enough z q h)
    ∙ lib_exit_endless n fuel a p _ xs e linked enough (state ∙ z) (pid ∙ q) waits

-- No object of the list is a zombie.
abbrev pub NoZombies : Objects → List ℕ → Type 0
NoZombies w [] = Unit
NoZombies w (x ∷ xs) = ((w.ctx x).state ≢ zombie) × NoZombies w xs

-- The exit returns with no object left, or waits for a process to end.
pub data Left : Ending (Unit {0}) → Type 0 where
  returned : (v : Objects) → v.ctx_list ≡ none → Left (done tt v)
  held : Left waiting

NoZombies-others :
    (a : ℕ) (w v : Objects) (xs : List ℕ)
    → Fresh a xs
    → ((x : ℕ) → x ≢ a → v.ctx x ≡ w.ctx x)
    → NoZombies w xs
    → NoZombies v xs
NoZombies-others a w v [] f others h = tt
NoZombies-others a w v (x ∷ xs) f others h = (
  subst (λ (o : Object). o.state ≢ zombie) (sym (others x (λ e. f.0 (sym e)))) h.0,
  NoZombies-others a w v xs f.1 others h.1,
)

step-Left :
    (n fuel a : ℕ) (w : Objects) (xs : List ℕ) (r : Ending (CInt × Option ℕ))
    → Linked w (a ∷ xs)
    → NoZombies w (a ∷ xs)
    → ((v : Objects) → Linked v xs → NoZombies v xs → Left (lib_exit n fuel v))
    → Deleted AnySent a w [] xs r
    → Left (after_delete r (λ v. lib_exit n fuel v))
step-Left n fuel a w xs _ l z next (gone s v linked reset others any) =
    next v linked (NoZombies-others a w v xs l.distinct.0 others z.1)
step-Left n fuel a w xs _ l z next (still_there v is linked others any) = absurd (z.0 is)
step-Left n fuel a w xs _ l z next blocked = held

lib_exit-none : (n fuel : ℕ) (w : Objects) → w.ctx_list ≡ none → lib_exit n fuel w ≡ done tt w
unfolding lib_exit
lib_exit-none zero fuel w e = rw e refl
lib_exit-none (suc n) fuel w e = rw e refl

-- pdip_lib_exit, where the pointers form a doubly linked list of distinct objects none of which is
-- a zombie, and the fuel is the number of objects or more: it returns with an empty list, or waits
-- for a process to end.
pub lib_exit-Left :
    (n fuel : ℕ) (w : Objects) (xs : List ℕ)
    → Linked w xs
    → NoZombies w xs
    → length xs ≤ n
    → 1 ≤ fuel
    → Left (lib_exit n fuel w)
lib_exit-Left n fuel w [] l z enough room =
    subst Left (sym (lib_exit-none n fuel w l.chain)) (returned w l.chain)
lib_exit-Left zero fuel w (a ∷ xs) l z enough room = absurd (omega arith)
lib_exit-Left (suc n) fuel w (a ∷ xs) l z enough room =
    subst Left (sym (lib_exit-after_delete n fuel a w l.chain.0)) (
      step-Left n fuel a w xs (delete fuel (some a) w) l z
        (λ v m y. lib_exit-Left n fuel v xs m y (omega arith) room)
        (delete-any fuel a w [] xs l room))
