-- ===== src/Objects.antt =====
-- The objects of pdip_lib.c and the list that links them: the fields of `pdip_ctx_t`, the
-- configuration of the user, pdip_init_ctx, pdip_free_resources, pdip_get_user_cfg,
-- pdip_set_user_cfg, pdip_cfg_init, pdip_new and pdip_unlink_ctx. An object is at an address, and
-- the list is the pointer to its first object with the pointers `next` and `prev` of each.
pub mod Calls
pub mod Links
pub mod Creation
pub mod Unlinking
pub mod Walks
pub mod Removal
pub mod Reaction
pub mod Leaving
pub mod Exit
pub mod Tests
use win_pdip.Prelude.{
  ℕ, Bool, true, false, Option, none, some, List, [], ◌∷◌, Bytes, ltb, ◌==◌, if◌then◌else◌, put,
  put_self, put_other,
}
use win_pdip.Outcome.{Errno, Result, ok, err, einval, enomem}
use win_pdip.Recv.Machine.{Buf, null_buf}
use win_pdip.Cpu.{nb_bytes, cpu_alloc, copy_from}
use win_pdip.Child.{State, init, CInt, Child, WaitReply}

-- A pointer to an object, or to a stream; `none` is null.
abbrev pub Link : Type 0
Link = Option ℕ

abbrev pub stderr : Link
stderr = some 2

-- PDIP_RESIZE_INCREMENT
abbrev pub resize_increment : ℕ
resize_increment = 1024

-- `pdip_ctx_t` without its links; `kept` is the outstanding data.
pub record Object : Type 0 where
  pub av : Option (List Bytes)
  pub pty_master : CInt
  pub debug : ℕ
  pub pid : CInt
  pub status : ℕ
  pub state : State
  pub kept : Buf
  pub dbg_output : Link
  pub err_output : Link
  pub flags : ℕ
  pub cpu : Option Bytes
  pub buf_resize_increment : ℕ

-- `pdip_cfg_t`
pub record Cfg : Type 0 where
  pub dbg_output : Link
  pub err_output : Link
  pub debug_level : ℕ
  pub flags : ℕ
  pub cpu : Option Bytes
  pub buf_resize_increment : ℕ

-- The static variables of the library, the objects at their addresses, the descriptors closed, and
-- what is outside: `errno`, the answers of `waitpid` and `kill`, and the signals sent. `handling`
-- tells whether SIGCHLD goes to the handler of the library.
pub record Objects : Type 0 where
  pub ctx_list : Link
  pub next : ℕ → Link
  pub prev : ℕ → Link
  pub ctx : ℕ → Object
  pub nb_cpu : ℕ
  pub debug_level : ℕ
  pub sig_hdl_internal : Bool
  pub handling : Bool
  pub closed : List ℕ
  pub errno : Errno
  pub waits : List WaitReply
  pub kills : List (Option Errno)
  pub sent : List (ℕ × ℕ)

-- A store through a pointer that is not null
abbrev pub put_at {ℓ} : {A : Type ℓ} → (ℕ → A) → Link → A → ℕ → A
put_at f none v x = f x
put_at f (some a) v x = put f a v x

-- `pdip_init_ctx`: nothing of the former content is left.
abbrev pub init_ctx : Object
init_ctx = record {
  av = none;
  pty_master = none;
  debug = 0;
  pid = none;
  status = 0;
  state = init;
  kept = null_buf;
  dbg_output = stderr;
  err_output = stderr;
  flags = 0;
  cpu = none;
  buf_resize_increment = resize_increment;
}

abbrev pub close_fd : CInt → List ℕ → List ℕ
close_fd none closed = closed
close_fd (some fd) closed = fd ∷ closed

-- `pdip_free_resources` of the object at an address
abbrev pub free_resources : ℕ → Objects → Objects
free_resources a w = record w {
  ctx = put w.ctx a init_ctx;
  closed = close_fd (w.ctx a).pty_master w.closed;
}

-- `pdip_get_user_cfg`
abbrev pub get_user_cfg : Object → Cfg
get_user_cfg o = record {
  dbg_output = o.dbg_output;
  err_output = o.err_output;
  debug_level = o.debug;
  flags = o.flags;
  cpu = o.cpu;
  buf_resize_increment = o.buf_resize_increment;
}

-- `if (p) x = p`
abbrev pub or_else : Link → Link → Link
or_else none old = old
or_else (some p) old = some p

-- The duplicate of the CPU array of the user: `none` where the allocation fails.
unfoldable pub duplicate :
    ℕ → (ℕ → Option Bytes) → Option Bytes → Option Bytes → Option (Option Bytes)
duplicate nb_cpu malloc none old = some old
duplicate nb_cpu malloc (some src) old = elim (cpu_alloc nb_cpu malloc) [
  | none ↦ none
  | some block ↦ some (some (copy_from nb_cpu (nb_bytes nb_cpu) 0 src block))
]

-- The fields of the user in the object, with the CPU array; `none` is a failed allocation, and then
-- the object is not used any more.
abbrev pub with_cfg : Cfg → Object → Option (Option Bytes) → Result Object
with_cfg cfg o none = err enomem
with_cfg cfg o (some cpu) = ok (record o {
  dbg_output = or_else cfg.dbg_output o.dbg_output;
  err_output = or_else cfg.err_output o.err_output;
  debug = cfg.debug_level;
  flags = cfg.flags;
  cpu = cpu;
  buf_resize_increment =
      if ltb 1 cfg.buf_resize_increment then cfg.buf_resize_increment else o.buf_resize_increment;
})

-- `pdip_set_user_cfg`, with the answers of `malloc`
unfoldable pub set_user_cfg : ℕ → (ℕ → Option Bytes) → Cfg → Object → Result Object
unfolding duplicate
set_user_cfg nb_cpu malloc cfg o = with_cfg cfg o (duplicate nb_cpu malloc cfg.cpu o.cpu)

-- `pdip_cfg_init`, of a pointer that is null or not
abbrev pub cfg_init : Bool → Result Cfg
cfg_init false = err einval
cfg_init true = ok (record {
  dbg_output = none;
  err_output = none;
  debug_level = 0;
  flags = 0;
  cpu = none;
  buf_resize_increment = 0;
})

-- The new object, with the configuration of the user where there is one.
unfoldable pub configured : ℕ → (ℕ → Option Bytes) → Option Cfg → Result Object
unfolding set_user_cfg
configured nb_cpu malloc none = ok init_ctx
configured nb_cpu malloc (some cfg) = set_user_cfg nb_cpu malloc cfg init_ctx

-- "Insert the object in the global list": the object at `a`, at the head.
unfoldable pub insert : ℕ → Object → Objects → Objects
insert a o w = record w {
  ctx_list = some a;
  next = put w.next a w.ctx_list;
  prev = put_at (put w.prev a none) w.ctx_list (some a);
  ctx = put w.ctx a o;
}

abbrev pub insert_configured : ℕ → Result Object → Objects → Link × Objects
insert_configured a (err e) w = (none, record w { errno = e })
insert_configured a (ok o) w = (some a, insert a o w)

-- `pdip_new`: the address is what `malloc` gives for the object.
unfoldable pub new : (ℕ → Option Bytes) → Link → Option Cfg → Objects → Link × Objects
unfolding insert configured
new malloc none cfg w = (none, record w { errno = enomem })
new malloc (some a) cfg w = insert_configured a (configured w.nb_cpu malloc cfg) w

-- `if (pdip_ctx_list == ctxp) pdip_ctx_list = ctxp->next`
abbrev pub replace_head : Link → ℕ → Link → Link
replace_head none a next = none
replace_head (some h) a next = if h == a then next else some h

-- `if (p) p->next = v` and the two stores that follow it in `pdip_unlink_ctx`
unfoldable pub unlink_ctx : ℕ → Objects → Objects
unlink_ctx a w =
    let next = put_at w.next (w.prev a) (w.next a) in
    record w {
      ctx_list = replace_head w.ctx_list a (next a);
      next = next;
      prev = put_at w.prev (next a) (w.prev a);
    }
