-- ===== src/Objects/Creation.antt =====
-- What `pdip_new` makes: an object as the user configures it, in front of the list.
use win_pdip.Prelude.{
  ℕ, ◌*◌, ◌<◌, ◌≤◌, ◌≡◌, ◌≢◌, refl, sym, ap, ◌∙◌, subst, Option, none, some, List, ◌∷◌, Bytes, ◌⊎◌,
  inl, inr, arith, put, put_self, put_other, length, get_or, memset, length-memset,
}
use win_pdip.Outcome.{Result, ok, err, enomem}
use win_pdip.Child.{init}
use win_pdip.Cpu.{nb_bytes, copy_from}
use win_pdip.Cpu.Blocks.{get_or-copy_from}
use win_pdip.Objects.{
  Link, Object, Objects, Cfg, insert, init_ctx, with_cfg, set_user_cfg, duplicate, configured, new,
  or_else, stderr,
}
use win_pdip.Objects.Links.{Fresh, Linked, insert-Linked}

-- What the user gives, or the standard error stream.
abbrev pub given_or_stderr : Link → Link
given_or_stderr none = some 2
given_or_stderr (some p) = some p

-- The CPU array: null where the user gives none, else another block with the same bytes.
abbrev pub IsCopy : ℕ → Option Bytes → Option Bytes → Type 0
IsCopy nb_cpu none cpu = cpu ≡ none
IsCopy nb_cpu (some src) none = ⊥
IsCopy nb_cpu (some src) (some copy) =
    (i : ℕ) → i < nb_bytes nb_cpu → get_or copy i 0 ≡ get_or src i 0

-- What the user configures, or the defaults.
pub record Configured (nb_cpu : ℕ) (cfg : Cfg) (o : Object) : Type 0 where
  pub dbg_output : o.dbg_output ≡ given_or_stderr cfg.dbg_output
  pub err_output : o.err_output ≡ given_or_stderr cfg.err_output
  pub debug : o.debug ≡ cfg.debug_level
  pub flags : o.flags ≡ cfg.flags
  pub cpu : IsCopy nb_cpu cfg.cpu o.cpu
  pub increment_given :
      1 < cfg.buf_resize_increment → o.buf_resize_increment ≡ cfg.buf_resize_increment
  pub increment_default : cfg.buf_resize_increment ≤ 1 → o.buf_resize_increment ≡ 1024

-- No configuration asks for the defaults.
abbrev pub asked : Option Cfg → Cfg
asked none = record {
  dbg_output = none;
  err_output = none;
  debug_level = 0;
  flags = 0;
  cpu = none;
  buf_resize_increment = 0;
}
asked (some cfg) = cfg

-- An object with no program yet.
pub record IsNew (o : Object) : Type 0 where
  pub av : o.av ≡ none
  pub pty_master : o.pty_master ≡ none
  pub pid : o.pid ≡ none
  pub status : o.status ≡ 0
  pub state : o.state ≡ init
  pub mem : o.kept.mem ≡ none
  pub sz : o.kept.sz ≡ 0
  pub len : o.kept.len ≡ 0

-- What `pdip_new` has done: nothing but `errno`, or a new object in front of the others.
pub data Created (a : ℕ) (cfg : Option Cfg) (malloc : ℕ → Option Bytes) (w : Objects) (xs : List ℕ)
    : Link × Objects → Type 0 where
  no_memory :
      (src : Bytes)
      → (asked cfg).cpu ≡ some src
      → malloc (nb_bytes w.nb_cpu * 8) ≡ none
      → Created a cfg malloc w xs (none, record w { errno = enomem })
  created :
      (v : Objects)
      → IsNew (v.ctx a)
      → Configured w.nb_cpu (asked cfg) (v.ctx a)
      → v ≡ record w { ctx_list = some a; next = v.next; prev = v.prev; ctx = v.ctx }
      → ((x : ℕ) → x ≢ a → v.ctx x ≡ w.ctx x)
      → Linked v (a ∷ xs)
      → Created a cfg malloc w xs (some a, v)

Option-cases : (o : Option Bytes) → (o ≡ none) ⊎ ((b : Bytes) × (o ≡ some b))
Option-cases none = inl refl
Option-cases (some b) = inr (b, refl)

-- A block that malloc gives has the size requested.
abbrev pub IsSizing : (ℕ → Option Bytes) → Type 0
IsSizing malloc = (n : ℕ) (block : Bytes) → malloc n ≡ some block → length block ≡ n

-- What the configuration is: the array cannot be allocated, or the object is as the user asks.
data IsAnswer (nb : ℕ) (malloc : ℕ → Option Bytes) (cfg : Cfg) : Result Object → Type 0 where
  failed :
      (src : Bytes)
      → cfg.cpu ≡ some src
      → malloc (nb_bytes nb * 8) ≡ none
      → IsAnswer nb malloc cfg (err enomem)
  made : (o : Object) → IsNew o → Configured nb cfg o → IsAnswer nb malloc cfg (ok o)

init_ctx-IsNew : IsNew init_ctx
init_ctx-IsNew = record {
  av = refl;
  pty_master = refl;
  pid = refl;
  status = refl;
  state = refl;
  mem = refl;
  sz = refl;
  len = refl;
}

or_else-given : (l : Link) → or_else l stderr ≡ given_or_stderr l
or_else-given none = refl
or_else-given (some p) = refl

with_cfg-IsAnswer :
    (nb : ℕ) (malloc : ℕ → Option Bytes) (cfg : Cfg) (cpu : Option Bytes)
    → IsCopy nb cfg.cpu cpu
    → IsAnswer nb malloc cfg (with_cfg cfg init_ctx (some cpu))
with_cfg-IsAnswer nb malloc cfg cpu h =
    made _
      (record {
        av = refl;
        pty_master = refl;
        pid = refl;
        status = refl;
        state = refl;
        mem = refl;
        sz = refl;
        len = refl;
      })
      (record {
        dbg_output = or_else-given cfg.dbg_output;
        err_output = or_else-given cfg.err_output;
        debug = refl;
        flags = refl;
        cpu = h;
        increment_given = λ g. ground arith;
        increment_default = λ g. ground arith;
      })

duplicate_null :
    (nb : ℕ) (malloc : ℕ → Option Bytes) (src : Bytes)
    → malloc (nb_bytes nb * 8) ≡ none
    → duplicate nb malloc (some src) none ≡ none
unfolding duplicate
duplicate_null nb malloc src null = rw (duplicate, null) refl

duplicate_block :
    (nb : ℕ) (malloc : ℕ → Option Bytes) (src block : Bytes)
    → malloc (nb_bytes nb * 8) ≡ some block
    → duplicate nb malloc (some src) none
      ≡ some (some (copy_from nb (nb_bytes nb) 0 src (memset block 0 (nb_bytes nb))))
unfolding duplicate
duplicate_block nb malloc src block given = rw (duplicate, given) refl

copied :
    (nb : ℕ) (src block : Bytes) (i : ℕ)
    → length block ≡ nb_bytes nb * 8
    → i < nb_bytes nb
    → get_or (copy_from nb (nb_bytes nb) 0 src (memset block 0 (nb_bytes nb))) i 0 ≡ get_or src i 0
copied nb src block i size h =
    get_or-copy_from nb (nb_bytes nb) 0 src (memset block 0 (nb_bytes nb)) i
      (omega (arith, length-memset block 0 (nb_bytes nb) (omega (arith, size)))) (omega (arith, h))
    ∙ ground arith

duplicate-IsAnswer :
    (nb : ℕ) (malloc : ℕ → Option Bytes) (cfg : Cfg) (cpu : Option Bytes)
    → IsSizing malloc
    → cfg.cpu ≡ cpu
    → IsAnswer nb malloc cfg (with_cfg cfg init_ctx (duplicate nb malloc cpu none))
unfolding duplicate
duplicate-IsAnswer nb malloc cfg none s e =
    with_cfg-IsAnswer nb malloc cfg none (subst (λ c. IsCopy nb c none) (sym e) refl)
duplicate-IsAnswer nb malloc cfg (some src) s e = elim (Option-cases (malloc (nb_bytes nb * 8))) [
  | inl null ↦
      subst (IsAnswer nb malloc cfg)
        (ap (with_cfg cfg init_ctx) (sym (duplicate_null nb malloc src null))) (failed src e null)
  | inr (block, given) ↦
      let copy : Bytes = copy_from nb (nb_bytes nb) 0 src (memset block 0 (nb_bytes nb)) in
      subst (λ d. IsAnswer nb malloc cfg (with_cfg cfg init_ctx d))
        (sym (duplicate_block nb malloc src block given))
        (with_cfg-IsAnswer nb malloc cfg (some copy) (
          subst (λ c. IsCopy nb c (some copy)) (sym e)
            (λ i h. copied nb src block i (s _ block given) h)))
]

configured-IsAnswer :
    (nb : ℕ) (malloc : ℕ → Option Bytes) (cfg : Option Cfg)
    → IsSizing malloc
    → IsAnswer nb malloc (asked cfg) (configured nb malloc cfg)
unfolding configured set_user_cfg
configured-IsAnswer nb malloc none s = made init_ctx init_ctx-IsNew (record {
  dbg_output = refl;
  err_output = refl;
  debug = refl;
  flags = refl;
  cpu = refl;
  increment_given = λ h. absurd (omega arith);
  increment_default = λ h. refl;
})
configured-IsAnswer nb malloc (some cfg) s = duplicate-IsAnswer nb malloc cfg cfg.cpu s refl

insert-Created :
    (malloc : ℕ → Option Bytes) (a : ℕ) (cfg : Option Cfg) (w : Objects) (xs : List ℕ) (o : Object)
    → Fresh a xs
    → Linked w xs
    → IsNew o
    → Configured w.nb_cpu (asked cfg) o
    → Created a cfg malloc w xs (some a, insert a o w)
unfolding insert
insert-Created malloc a cfg w xs o f l n c =
    let at : put w.ctx a o a ≡ o = put_self w.ctx a o in
    created (insert a o w) (subst IsNew (sym at) n)
      (subst (Configured w.nb_cpu (asked cfg)) (sym at) c) refl (put_other w.ctx a o)
      (insert-Linked a o w xs f l)

-- What the call makes of the answer.
answered-Created :
    (malloc : ℕ → Option Bytes) (a : ℕ) (cfg : Option Cfg) (w : Objects) (xs : List ℕ)
    (r : Result Object)
    → Fresh a xs
    → Linked w xs
    → configured w.nb_cpu malloc cfg ≡ r
    → IsAnswer w.nb_cpu malloc (asked cfg) r
    → Created a cfg malloc w xs (new malloc (some a) cfg w)
unfolding new
answered-Created malloc a cfg w xs _ f l e (failed src given null) = rw e (no_memory src given null)
answered-Created malloc a cfg w xs _ f l e (made o n c) =
    rw e (insert-Created malloc a cfg w xs o f l n c)

-- pdip_new with a block that malloc gives at an address that is not in the list, where malloc
-- gives blocks of the size requested and the pointers form a doubly linked list of distinct
-- objects: either the user gives a CPU array and its copy cannot be allocated, and the call gives
-- null and only sets errno to ENOMEM; or the object stands in front of the others with correct
-- pointers both ways, has no program yet, and has the debug level, the flags and the streams of
-- the user (the standard error stream where the user gives none), a copy of the CPU array, and the
-- increment of the user if that is above 1 and else 1024, no configuration counting as one of
-- zeros; the other objects and the other variables are unchanged.
pub new-Created :
    (malloc : ℕ → Option Bytes) (a : ℕ) (cfg : Option Cfg) (w : Objects) (xs : List ℕ)
    → IsSizing malloc
    → Fresh a xs
    → Linked w xs
    → Created a cfg malloc w xs (new malloc (some a) cfg w)
new-Created malloc a cfg w xs s f l =
    answered-Created malloc a cfg w xs (configured w.nb_cpu malloc cfg) f l refl
      (configured-IsAnswer w.nb_cpu malloc cfg s)
