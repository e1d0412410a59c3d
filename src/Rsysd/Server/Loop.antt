-- ===== src/Rsysd/Server/Loop.antt =====
-- A round of the select loop in `main` of rsys/rsystemd.c.
use win_pdip.Prelude.{
  ℕ, zero, suc, ◌+◌, ◌-◌, Bool, true, false, Option, none, some, List, [], ◌∷◌, Bytes, ltb, ◌==◌,
  if◌then◌else◌,
}
use win_pdip.Rsysd.Fsm.{Answers}
use win_pdip.Rsysd.Server.{
  Server, Outcome, done, aborted, ◌>>=◌, connect, Input, serve_shell, serve_client,
}

-- What happens in a round: the number that `select` returns, whether the server's own socket is ready,
-- and then what `accept` gives and the address of the new client; which shells and which clients are
-- ready, with what they and the calls for them answer.
pub record Ready : Type 0 where
  pub nb_ready : ℕ
  pub listening : Bool
  pub accepted : Option ℕ
  pub memory : Option ℕ
  pub shells : ℕ → Bool
  pub clients : ℕ → Bool
  pub shell_answers : ℕ → Answers
  pub inputs : ℕ → Input
  pub link_answers : ℕ → Answers
  pub client_answers : ℕ → Answers

-- EINTR, another error, or descriptors that are ready
pub data SelectReply : Type 0 where
  interrupted failed : SelectReply
  ready : Ready → SelectReply

module _ (atoi : Bytes → ℕ) (r : Ready) where
  -- "Data from shells ?": `n` shells from index `i` on, and `nb_ready`, which comes out as the result.
  unfoldable pub serve_shells : ℕ → ℕ → ℕ → Server → Outcome ℕ
  unfolding serve_shell
  serve_shells zero i nb w = done nb w
  serve_shells (suc n) i nb w =
      if ltb 0 nb
      then (if r.shells i
          then (serve_shell atoi i (r.shell_answers i) w >>= λ _ v.
              serve_shells n (i + 1) (nb - 1) v)
          else serve_shells n (i + 1) nb w)
      else done nb w

  -- "Commands from clients ?": the next client is known before the current one is freed.
  unfoldable pub serve_clients : List ℕ → ℕ → Server → Outcome ℕ
  unfolding serve_client
  serve_clients [] nb w = done nb w
  serve_clients (c ∷ cs) nb w =
      if ltb 0 nb
      then (if r.clients c
          then (serve_client atoi c (r.inputs c) (r.link_answers c) (r.client_answers c) w
              >>= λ _ v. serve_clients cs (nb - 1) v)
          else serve_clients cs nb w)
      else done nb w

  -- `assert(0 == nb_ready)`; true is that the loop goes on.
  abbrev pub none_left : ℕ → Server → Outcome Bool
  none_left nb w = if nb == 0 then done true w else aborted

  -- What follows the new connection
  unfoldable pub serve_all : ℕ → Server → Outcome Bool
  unfolding serve_shells serve_clients
  serve_all nb w =
      serve_shells w.nb_shells 0 nb w >>= λ n v. serve_clients v.clients n v >>= none_left

  -- "If it is a new client connection"; where `accept` fails the server ends.
  abbrev pub accept_client : Option ℕ → Server → Outcome Bool
  accept_client none w = done false w
  accept_client (some sd) w = serve_all (r.nb_ready - 1) (connect r.memory sd w)

  unfoldable pub serve_ready : Server → Outcome Bool
  unfolding serve_all connect
  serve_ready w = if r.listening then accept_client r.accepted w else serve_all r.nb_ready w

-- A round: false is that the server ends.
unfoldable pub round : (Bytes → ℕ) → SelectReply → Server → Outcome Bool
unfolding serve_ready
round atoi interrupted w = done true w
round atoi failed w = done false w
round atoi (ready r) w = serve_ready atoi r w
