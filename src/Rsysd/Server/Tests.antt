-- ===== src/Rsysd/Server/Tests.antt =====
-- Two shells, the first with client 7 that waits for the end of a command, and client 8 with none.
use win_pdip.Prelude.{
  ℕ, ◌≡◌, refl, inl, inr, true, false, none, some, [], ◌∷◌, put, subst, ◌==◌, arith,
}
use win_pdip.Recv.{received}
use win_pdip.Rsysd.Fsm.{free, allocated, wait_eoc, Answers}
use win_pdip.Rsysd.Server.{Shell, Client, Server, Input, header, bytes, serve_client}
use win_pdip.Rsysd.Server.Wiring.{Wired, Ends}
use win_pdip.Rsysd.Server.Loop.{Ready, ready, round}
use win_pdip.Rsysd.Server.Clients.{Sound, Gives}
use win_pdip.Rsysd.Server.Rounds.{Documented, round-Sound}
use win_pdip.Rsysd.Server.Answering.{In, Settled, serve_client-Settled}

abbrev idle_shell : Shell
idle_shell = record { state = free; client = none; status = 0; typed = [] }

abbrev idle_client : Client
idle_client = record { state = allocated; sd = 9; shell = none; cmd = none; cmd_sz = 0; sent = [] }

abbrev server : Server
server = record {
  shells =
      put (λ i. idle_shell) 0
        (record { state = wait_eoc; client = some 7; status = 0; typed = [] });
  nb_shells = 2;
  clients = 8 ∷ 7 ∷ [];
  client_at =
      put (λ c. idle_client) 7
        (record {
          state = allocated;
          sd = 6;
          shell = some 0;
          cmd = some (b'l' ∷ 0 ∷ []);
          cmd_sz = 2;
          sent = [];
        });
  nb_clients = 2;
  fds = record { member = λ i. false; fd_max = 9 };
  closing = [];
  notices = [];
}

server-Wired : Wired server
server-Wired = record {
  forth = λ i c e. ground arith;
  back = λ i c e. ground arith;
  served = λ i. ground arith;
  alive = λ i c e. ground arith;
}

abbrev answers : Answers
answers = record {
  code = received;
  text = b'x' ∷ [];
  typed_ok = true;
  display_ok = true;
  eoc_ok = true;
  null_text = [];
}

-- "ls"
abbrev command : Input
command = record { head = header 0 3; memory = true; body = bytes (b'l' ∷ b's' ∷ 0 ∷ []) }

serve_client-Settled_example :
    Ends (Settled 8 server) (serve_client (λ t. 0) 8 command answers answers server)
serve_client-Settled_example =
    serve_client-Settled (λ t. 0) 8 command answers answers server server-Wired refl (inl refl) refl
      refl

server-Sound : Sound server
server-Sound = record {
  wired = server-Wired;
  counted = refl;
  distinct = ((omega arith, tt), (tt, tt));
  live = λ c h. ground arith;
  sized = λ c h. ground arith;
}

-- The first shell has data, client 8 sends a command, and there is a new client.
abbrev busy_round : Ready
busy_round = record {
  nb_ready = 3;
  listening = true;
  accepted = some 11;
  memory = some 5;
  shells = λ i. i == 0;
  clients = λ c. c == 8;
  shell_answers = λ i. answers;
  inputs = λ c. command;
  link_answers = λ c. answers;
  client_answers = λ c. answers;
}

busy_round-Documented : Documented busy_round server
busy_round-Documented = record {
  number = refl;
  whole = λ i. ground arith;
  unused = λ c e.
      subst
        (λ x.
          (In x server.clients → ⊥)
          × ((server.client_at x).shell ≡ none)
          × (busy_round.clients x ≡ false))
        (five c e) (not_there, refl, refl);
}
  where
    five : (c : ℕ) → busy_round.memory ≡ some c → 5 ≡ c
    five c e = cc e

    not_there : In 5 server.clients → ⊥
    not_there (inl e) = absurd (omega (arith, e))
    not_there (inr (inl e)) = absurd (omega (arith, e))
    not_there (inr (inr h)) = h

round-Sound_example : Gives (λ goes_on v. Sound v) (round (λ t. 0) (ready busy_round) server)
round-Sound_example =
    round-Sound (λ t. 0) (ready busy_round) server server-Sound busy_round-Documented
