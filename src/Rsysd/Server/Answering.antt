-- ===== src/Rsysd/Server/Answering.antt =====
-- What follows the read of a client that is ready, and the whole step for it.
use win_pdip.Prelude.{
  ℕ, ◌+◌, ◌≡◌, ◌≢◌, ◌⊎◌, inl, inr, refl, sym, ap, ◌∙◌, true, false, List, [], ◌∷◌, Bytes, length,
  ltb, ◌==◌, Bool-cases, Option-cases, lt→ltb, arith,
}
use win_pdip.Rsysd.Fsm.{
  State, free, allocated, wait_eoc, wait_status, freeing, Answers, is_allocated,
}
use win_pdip.Rsysd.Fsm.Deletion.{IsPlain}
use win_pdip.Rsysd.Server.{
  Server, is_free, is_null, Input, without, free_client, link_client, read_and_dispatch,
  free_deleted, serve_client,
}
use win_pdip.Rsysd.Server.Wiring.{Wired, Ends}
use win_pdip.Rsysd.Server.Serving.{IsSized, Kept, Linkable, link_client-Linkable}
use win_pdip.Rsysd.Server.Dispatching.{Ends->>=, Ends-mono, Kept-trans, read_and_dispatch-Kept}

-- The client is in the list.
abbrev pub In : ℕ → List ℕ → Type 0
In c [] = ⊥
In c (d ∷ ds) = (c ≡ d) ⊎ In c ds

length-without : (c : ℕ) (ds : List ℕ) → In c ds → length (without c ds) + 1 ≡ length ds
length-without c [] h = absurd h
length-without c (d ∷ ds) (inl e) = ground arith
length-without c (d ∷ ds) (inr h) = elim (Bool-cases (c == d)) [
  | inl e ↦ rw e (omega arith)
  | inr e ↦ rw e (omega (arith, length-without c ds h))
]

-- Behind the whole step for a client: the pointers and the number of clients are right, and the
-- client is out of the list exactly if it is deleted; it is in use or deleted, and the other clients
-- are as they were.
pub record Settled (c : ℕ) (w v : Server) : Type 0 where
  pub wired : Wired v
  pub counted : v.nb_clients ≡ length v.clients
  pub deleted : is_free (v.client_at c).state ≡ true → v.clients ≡ without c w.clients
  pub kept : is_free (v.client_at c).state ≡ false → v.clients ≡ w.clients
  pub others : (x : ℕ) → x ≢ c → v.client_at x ≡ w.client_at x
  pub plain : IsPlain (v.client_at c).state
  pub sized : IsSized (v.client_at c)

-- A deleted client has no shell.
unlinked :
    (c : ℕ) (w : Server)
    → Wired w
    → is_free (w.client_at c).state ≡ true
    → is_null (w.client_at c).shell ≡ true
unlinked c w v e = elim (Option-cases (w.client_at c).shell) [
  | inl none_there ↦ rw none_there refl
  | inr (i, there) ↦ absurd (exclusive (w.client_at c).state e (v.alive i c there))
]
  where
    exclusive : (s : State) → is_free s ≡ true → is_allocated s ≡ true → ⊥
    exclusive free e h = cc h
    exclusive allocated e h = cc e
    exclusive wait_eoc e h = cc e
    exclusive wait_status e h = cc e
    exclusive freeing e h = cc e

free_deleted-Settled :
    (c : ℕ) (w v : Server)
    → In c w.clients
    → w.nb_clients ≡ length w.clients
    → Kept c w v
    → Ends (Settled c w) (free_deleted c v)
unfolding free_deleted free_client
free_deleted-Settled c w v there count k = elim (Bool-cases (is_free (v.client_at c).state)) [
  | inl e ↦
      rw (e, unlinked c v k.wired e, k.sized, some_left)
        (record {
          wired = record {
            forth = k.wired.forth;
            back = k.wired.back;
            served = k.wired.served;
            alive = k.wired.alive;
          };
          counted = omega (
            arith,
            number,
            ap length (ap (without c) k.clients),
            ap length k.clients,
            length-without c w.clients there,
          );
          deleted = λ _. ap (without c) k.clients;
          kept = λ h. absurd (cc (h, e));
          others = k.others;
          plain = k.plain;
          sized = k.sized;
        })
  | inr e ↦ rw e (record {
    wired = k.wired;
    counted = number ∙ ap length (sym k.clients);
    deleted = λ h. absurd (cc (h, e));
    kept = λ _. k.clients;
    others = k.others;
    plain = k.plain;
    sized = k.sized;
  })
]
  where
    number : v.nb_clients ≡ length w.clients
    number = k.nb_clients ∙ count

    some_left : ltb 0 v.nb_clients ≡ true
    some_left = lt→ltb 0 v.nb_clients (omega (arith, number, length-without c w.clients there))

-- What rsystemd does for a client that is ready, whatever it sends, where the pointers between
-- shells and clients are right, the clients are counted, the client is in the list and in use, and
-- a block for its command has a size above 0: no assertion fails, the pointers and the number stay
-- right, the client is out of the list where it has been deleted and the list is unchanged where
-- not, and the other clients are unchanged.
pub serve_client-Settled :
    (atoi : Bytes → ℕ) (c : ℕ) (i : Input) (a b : Answers) (w : Server)
    → Wired w
    → w.nb_clients ≡ length w.clients
    → In c w.clients
    → is_allocated (w.client_at c).state ≡ true
    → IsSized (w.client_at c)
    → Ends (Settled c w) (serve_client atoi c i a b w)
unfolding serve_client
serve_client-Settled atoi c i a b w v count there live z =
    Ends->>= (Linkable c w) (Settled c w) (link_client atoi c a w) _
      (link_client-Linkable atoi c a w v live z)
      (λ _ u h.
        Ends->>= (Kept c w) (Settled c w) (read_and_dispatch atoi c i b u) _
          (Ends-mono (Kept c u) (Kept c w) _
            (read_and_dispatch-Kept atoi c i b u h.0.wired h.0.sized h.1)
            (λ x k. Kept-trans c w u x h.0 k))
          (λ _ x k. free_deleted-Settled c w x there count k))
