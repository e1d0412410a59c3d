-- ===== src/Objects/Calls.antt =====
-- The calls of pdip_lib.c on the list of objects: pdip_delete, pdip_signal_handler, pdip_configure,
-- pdip_lib_initialize, pdip_child_fork and pdip_lib_exit. The loops over the list take fuel.
use win_pdip.Prelude.{ℕ, zero, suc, Bool, true, false, Option, none, some, ◌==◌, if◌then◌else◌, put}
use win_pdip.Outcome.{Errno, Result, ok, err, einval, enoent}
use win_pdip.Child.{
  State, init, alive, zombie, dead, is_alive, is_init, CInt, same, Child, Step, wait_child,
  terminate_child,
}
use win_pdip.Objects.{Link, Objects, free_resources, unlink_ctx}

-- How a call ends: with a value, on a failed assertion, waiting for an answer that is not recorded,
-- or out of fuel.
pub data Ending (A : Type 0) : Type 0 where
  done : A → Objects → Ending A
  aborted waiting out_of_fuel : Ending A

-- The walk over the list to the first object that passes a test; the outer `none` is out of fuel.
unfoldable pub walk : ℕ → (ℕ → Link) → (ℕ → Bool) → Link → Option Link
walk n next test none = some none
walk zero next test (some a) = none
walk (suc n) next test (some a) =
    let rest = walk n next test (next a) in if test a then some (some a) else rest

-- The process of the object at `a` with what is outside, and back.
abbrev pub child_of : ℕ → Objects → Child
child_of a w = record {
  state = (w.ctx a).state;
  pid = (w.ctx a).pid;
  status = (w.ctx a).status;
  pty_master = (w.ctx a).pty_master;
  errno = w.errno;
  waits = w.waits;
  kills = w.kills;
  sent = w.sent;
}

abbrev pub with_child : ℕ → Child → Objects → Objects
with_child a c w = record w {
  ctx = put w.ctx a (record (w.ctx a) {
    state = c.state;
    pid = c.pid;
    status = c.status;
    pty_master = c.pty_master;
  });
  errno = c.errno;
  waits = c.waits;
  kills = c.kills;
  sent = c.sent;
}

-- The links of an object that is going to be freed
abbrev pub clear_links : ℕ → Objects → Objects
clear_links a w = record w { next = put w.next a none; prev = put w.prev a none }

-- The end of `pdip_delete`: the return code and the status of the process.
unfoldable pub release : ℕ → ℕ → Objects → Ending (CInt × Option ℕ)
unfolding unlink_ctx
release a status w = done (some 0, some status) (clear_links a (free_resources a (unlink_ctx a w)))

abbrev pub terminated : ℕ → Objects → Step ℕ → Ending (CInt × Option ℕ)
terminated a w (Step.done n c) = release a n (with_child a c w)
terminated a w Step.waiting = waiting

abbrev pub waited : ℕ → Objects → Step (CInt × ℕ) → Ending (CInt × Option ℕ)
waited a w (Step.done (rc, n) c) =
    if same rc (some 0)
    then release a n (with_child a c w)
    else done (none, none) (with_child a c w)
waited a w Step.waiting = waiting

-- The switch on the state of the object
unfoldable pub finish : ℕ → State → Objects → Ending (CInt × Option ℕ)
unfolding release terminate_child wait_child
finish a alive w = terminated a w (terminate_child (child_of a w))
finish a dead w = release a (w.ctx a).status w
finish a zombie w = waited a w (wait_child (child_of a w))
finish a init w = release a (w.ctx a).status w

abbrev pub delete_found : Option Link → Objects → Ending (CInt × Option ℕ)
delete_found none w = out_of_fuel
delete_found (some none) w = done (none, none) (record w { errno = enoent })
delete_found (some (some a)) w = finish a (w.ctx a).state w

-- `pdip_delete`
unfoldable pub delete : ℕ → Link → Objects → Ending (CInt × Option ℕ)
unfolding walk finish
delete fuel none w = done (none, none) (record w { errno = einval })
delete fuel (some a) w = delete_found (walk fuel w.next (λ x. a == x) w.ctx_list) w

-- PDIP_SIG_HANDLED, PDIP_SIG_UNKNOWN and PDIP_SIG_ERROR
pub data Handled : Type 0 where
  sig_handled sig_unknown sig_error : Handled

-- SIGCHLD
abbrev pub sigchld : ℕ
sigchld = 17

-- The object whose process a SIGCHLD is about
unfoldable pub mark_zombie : ℕ → Objects → Ending Handled
mark_zombie a w =
    let marked = record w { ctx = put w.ctx a (record (w.ctx a) { state = zombie }) } in
    if is_alive (w.ctx a).state
    then done sig_handled marked
    else if is_init (w.ctx a).state
    then done sig_handled marked
    else aborted

abbrev pub handle_found : Option Link → Objects → Ending Handled
handle_found none w = out_of_fuel
handle_found (some none) w = done sig_error w
handle_found (some (some a)) w = mark_zombie a w

-- `pdip_signal_handler`: the signal, and `info`, null or with its `si_pid`
unfoldable pub signal_handler : ℕ → ℕ → Option CInt → Objects → Ending Handled
unfolding walk mark_zombie
signal_handler fuel sig none w = done sig_error w
signal_handler fuel sig (some pid) w =
    if sig == sigchld
    then handle_found (walk fuel w.next (λ x. same pid (w.ctx x).pid) w.ctx_list) w
    else done sig_unknown w

-- `pdip_configure`, with the answer of `sigaction`
abbrev pub configure : Bool → ℕ → Option Errno → Objects → CInt × Objects
configure false level answer w = (some 0, record w { debug_level = level })
configure true level none w =
    (some 0, record w { debug_level = level; handling = true; sig_hdl_internal = true })
configure true level (some e) w = (none, record w { debug_level = level; errno = e })

-- `pdip_lib_initialize`, with the answers of `pthread_mutex_init`, `sysconf` and `pthread_atfork`
abbrev pub lib_initialize : Option Errno → Result ℕ → Option Errno → Objects → Ending CInt
lib_initialize (some e) cpus fork w = done none (record w { errno = e })
lib_initialize none (err e) fork w = done none (record w { errno = e })
lib_initialize none (ok zero) fork w = aborted
lib_initialize none (ok (suc n)) (some e) w = done none (record w { nb_cpu = suc n; errno = e })
lib_initialize none (ok (suc n)) none w = done (some 0) (record w { nb_cpu = suc n })

-- The loop of `pdip_child_fork`
unfoldable pub forget_all : ℕ → Objects → Ending (Unit {0})
unfolding unlink_ctx
forget_all zero w = elim w.ctx_list [ none ↦ done tt w | some a ↦ out_of_fuel ]
forget_all (suc n) w = elim w.ctx_list [
  | none ↦ done tt w
  | some a ↦ forget_all n (clear_links a (unlink_ctx a (free_resources a w)))
]

-- Behind the loop
abbrev pub forgotten : Ending (Unit {0}) → Ending (Unit {0})
forgotten (done u w) = done u (record w { nb_cpu = 0; debug_level = 0 })
forgotten aborted = aborted
forgotten waiting = waiting
forgotten out_of_fuel = out_of_fuel

-- "Cancel it to the old value", where `sigaction` succeeds
abbrev pub restore_action : Bool → Objects → Objects
restore_action false w = w
restore_action true w = record w { handling = if w.sig_hdl_internal then false else w.handling }

-- `pdip_child_fork`, in the child of a `fork`
unfoldable pub child_fork : ℕ → Bool → Objects → Ending (Unit {0})
unfolding forget_all
child_fork fuel restored w = forgotten (forget_all fuel (restore_action restored w))

-- The loop of `pdip_lib_exit` behind one deletion, whose return code is not looked at.
abbrev pub after_delete :
    Ending (CInt × Option ℕ) → (Objects → Ending (Unit {0})) → Ending (Unit {0})
after_delete (done r v) k = k v
after_delete aborted k = aborted
after_delete waiting k = waiting
after_delete out_of_fuel k = out_of_fuel

-- "Delete the head of the list"
unfoldable pub exit_head : Link → ℕ → Objects → (Objects → Ending (Unit {0})) → Ending (Unit {0})
unfolding delete
exit_head none fuel w k = done tt w
exit_head (some a) fuel w k = after_delete (delete fuel (some a) w) k

-- `pdip_lib_exit`; the second fuel is that of the walk in `pdip_delete`.
unfoldable pub lib_exit : ℕ → ℕ → Objects → Ending (Unit {0})
unfolding exit_head
lib_exit zero fuel w = elim w.ctx_list [ none ↦ done tt w | some a ↦ out_of_fuel ]
lib_exit (suc n) fuel w = exit_head w.ctx_list fuel w (λ v. lib_exit n fuel v)
