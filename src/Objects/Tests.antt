-- ===== src/Objects/Tests.antt =====
-- The theorems at a list of two objects, at 10 with process 42 and at 20 with none.
use win_pdip.Prelude.{
  ◌≡◌, refl, ◌∙◌, sym, ap, ℕ, Option, Bytes, length, length-replicate, inl, true, none, some, List,
  [], ◌∷◌, replicate, arith, put,
}
use win_pdip.Outcome.{eio, enoent}
use win_pdip.Child.{State, alive, zombie, ended, failed, WaitReply}
use win_pdip.Child.Signals.{AllTo}
use win_pdip.Objects.{Object, Objects, Cfg, init_ctx, new, unlink_ctx}
use win_pdip.Objects.Links.{Linked}
use win_pdip.Objects.Creation.{Created, IsSizing, new-Created}
use win_pdip.Objects.Unlinking.{unlink_ctx-Linked}
use win_pdip.Objects.Removal.{Deleted, delete-Deleted, delete_unknown}
use win_pdip.Objects.Reaction.{Reacted, signal_handler-Reacted, signal_handler_twice}
use win_pdip.Objects.Leaving.{Emptied, child_fork-Emptied}
use win_pdip.Objects.Exit.{Left, lib_exit-Left, lib_exit_endless}
use win_pdip.Objects.Calls.{
  done, aborted, out_of_fuel, delete, sig_handled, sigchld, signal_handler, child_fork, lib_exit,
}

abbrev with_state : State → Object
with_state s = record init_ctx { pid = some 42; state = s; pty_master = some 5 }

abbrev two : State → List WaitReply → Objects
two s waits = record {
  ctx_list = some 10;
  next = put (λ x. none) 10 (some 20);
  prev = put (λ x. none) 20 (some 10);
  ctx = put (λ x. init_ctx) 10 (with_state s);
  nb_cpu = 4;
  debug_level = 0;
  sig_hdl_internal = true;
  handling = true;
  closed = [];
  errno = eio;
  waits = waits;
  kills = [];
  sent = [];
}

two-Linked : (s : State) (waits : List WaitReply) → Linked (two s waits) (10 ∷ 20 ∷ [])
two-Linked s waits = record {
  chain = (refl, refl, (refl, refl, refl));
  distinct = ((omega arith, tt), (tt, tt));
}

abbrev on_the_flow : Cfg
on_the_flow = record {
  dbg_output = none;
  err_output = none;
  debug_level = 0;
  flags = 2;
  cpu = some (5 ∷ []);
  buf_resize_increment = 1;
}

-- Blocks of any size
abbrev zeros : ℕ → Option Bytes
zeros n = some (replicate n 0)

some_inj_bytes : {a b : Bytes} → ◌≡◌ {A = Option Bytes} (some a) (some b) → a ≡ b
some_inj_bytes e = cc e

zeros-IsSizing : IsSizing zeros
zeros-IsSizing n block e = ap length (sym (some_inj_bytes e)) ∙ length-replicate n 0

new-Created_example :
    Created 30
      (some on_the_flow)
      zeros
      (two alive [])
      (10 ∷ 20 ∷ [])
      (new zeros (some 30) (some on_the_flow) (two alive []))
new-Created_example =
    new-Created zeros 30 (some on_the_flow) (two alive []) (10 ∷ 20 ∷ []) zeros-IsSizing
      (omega arith, (omega arith, tt)) (two-Linked alive [])

unlink_ctx-Linked_example : Linked (unlink_ctx 20 (two alive [])) (10 ∷ [])
unlink_ctx-Linked_example = unlink_ctx-Linked 20 (two alive []) (10 ∷ []) [] (two-Linked alive [])

delete-Deleted_example :
    Deleted
      (AllTo 42)
      10
      (two alive (ended 42 7 ∷ []))
      []
      (20 ∷ [])
      (delete 1 (some 10) (two alive (ended 42 7 ∷ [])))
delete-Deleted_example =
    delete-Deleted 1 42 10 (two alive (ended 42 7 ∷ [])) [] (20 ∷ [])
      (two-Linked alive (ended 42 7 ∷ [])) (omega arith)
      (record { target = inl refl; signals = tt })

delete_unknown_example :
    delete 2 (some 30) (two alive []) ≡ done (none, none) (record (two alive []) { errno = enoent })
delete_unknown_example =
    delete_unknown 2 30 (two alive []) (10 ∷ 20 ∷ []) (two-Linked alive []) (omega arith)
      (omega arith, (omega arith, tt))

signal_handler-Reacted_example :
    Reacted
      (some 42)
      (two alive [])
      (10 ∷ 20 ∷ [])
      (signal_handler 2 sigchld (some (some 42)) (two alive []))
signal_handler-Reacted_example =
    signal_handler-Reacted 2 42 (two alive []) (10 ∷ 20 ∷ []) (two-Linked alive []) (omega arith)
      (λ e. absurd (cc e), ((λ e. absurd (cc e)), tt))

signal_handler_twice_example :
    (v : Objects) × (signal_handler 1 sigchld (some (some 42)) (two alive []) ≡ done sig_handled v)
    × (signal_handler 1 sigchld (some (some 42)) v ≡ aborted)
signal_handler_twice_example =
    signal_handler_twice 1 42 10 (two alive []) [] (20 ∷ []) (two-Linked alive []) (omega arith) tt
      refl refl

child_fork-Emptied_example :
    (v : Objects) × (child_fork 2 true (two alive []) ≡ done tt v)
    × Emptied (two alive []) (10 ∷ 20 ∷ []) v
    × (v.nb_cpu ≡ 0)
child_fork-Emptied_example =
    child_fork-Emptied 2 true (two alive []) (10 ∷ 20 ∷ []) (two-Linked alive []) (omega arith)

lib_exit-Left_example : Left (lib_exit 2 1 (two alive (ended 42 7 ∷ [])))
lib_exit-Left_example =
    lib_exit-Left 2 1 (two alive (ended 42 7 ∷ [])) (10 ∷ 20 ∷ [])
      (two-Linked alive (ended 42 7 ∷ [])) ((λ e. cc e), ((λ e. cc e), tt)) (omega arith)
      (omega arith)

lib_exit_endless_example : lib_exit 3 1 (two zombie (replicate 3 (failed eio))) ≡ out_of_fuel
lib_exit_endless_example =
    lib_exit_endless 3 1 10 42 (two zombie (replicate 3 (failed eio))) (20 ∷ []) eio
      (two-Linked zombie (replicate 3 (failed eio))) (omega arith) refl refl refl
