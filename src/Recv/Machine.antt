-- ===== src/Recv/Machine.antt =====
-- The state that `pdip_recv` of pdip_lib.c works on, what the system answers to its calls, and how
-- a step of it can end.
use win_pdip.Prelude.{
  ℕ, ◌-◌, Bool, true, false, Option, none, some, List, [], ◌∷◌, ◌++◌, Bytes, length, get_or, take,
  replicate, ◌==◌,
}
use win_pdip.Outcome.{Errno}

-- A buffer: the pointer (`none` is null) with the whole block behind it, the physical size, and
-- the amount of data without the terminating NUL. So `outstanding_data`, `outstanding_data_sz` and
-- `outstanding_data_offset` of the context, and `*display`, `*display_sz` and `*data_sz`.
pub record Buf : Type 0 where
  pub mem : Option Bytes
  pub sz : ℕ
  pub len : ℕ

abbrev pub null_buf : Buf
null_buf = record { mem = none; sz = 0; len = 0 }

-- What `read` on the master side answers: EINTR, another error, or the bytes at hand.
pub data ReadReply : Type 0 where
  interrupted : ReadReply
  failed : Errno → ReadReply
  bytes : Bytes → ReadReply

-- What `select` answers: EINTR, another error, the time is over, or data are there. The number is
-- the time left, in microseconds, which Linux stores through the timeout argument.
pub data SelectReply : Type 0 where
  interrupted : ℕ → SelectReply
  failed : Errno → SelectReply
  elapsed : SelectReply
  ready : ℕ → SelectReply

pub record World : Type 0 where
  pub kept : Buf
  pub user : Buf
  -- the time left, `timeout->tv_sec` and `timeout->tv_usec` in one number
  pub left : ℕ
  pub errno : Errno
  pub reads : List ReadReply
  pub selects : List SelectReply
  -- The allocator's answers: `none` is null, `some j` a block whose fresh bytes are `j`. Behind
  -- the end of the list every request is granted.
  pub heap : List (Option ℕ)

-- `aborted`: an assertion failed, or an access lay outside its block. `waiting`: the call blocks,
-- since the system's answers recorded are used up. `out_of_fuel`: the bound on a loop is reached.
pub data Outcome {ℓ} (A : Type ℓ) : Type ℓ where
  done : A → World → Outcome A
  aborted : Outcome A
  waiting : Outcome A
  out_of_fuel : Outcome A

infixl 5 ◌>>=◌
abbrev pub ◌>>=◌ {ℓ κ} : {A : Type ℓ} {B : Type κ} → Outcome A → (A → World → Outcome B) → Outcome B
done a w >>= f = f a w
aborted >>= f = aborted
waiting >>= f = waiting
out_of_fuel >>= f = out_of_fuel

-- An assertion, or the bounds of an access, in front of what follows.
abbrev pub require {ℓ} : {A : Type ℓ} → Bool → Outcome A → Outcome A
require true k = k
require false k = aborted

-- One answer of the allocator, and the rest.
abbrev pub next_block : List (Option ℕ) → Option ℕ × List (Option ℕ)
next_block [] = (some 0, [])
next_block (a ∷ later) = (a, later)

-- `realloc(p, n)`, granted: the old bytes, and fresh ones.
abbrev pub grown : Option Bytes → ℕ → ℕ → Bytes
grown none n j = replicate n j
grown (some b) n j = take n b ++ replicate (n - length b) j

-- `p[i]`, which is read inside its block only; behind it the answer is no NUL.
abbrev pub byte_at : Option Bytes → ℕ → ℕ
byte_at none i = 256
byte_at (some b) i = get_or b i 256

abbrev pub is_null : Option Bytes → Bool
is_null none = true
is_null (some b) = false

abbrev pub is_nul : Option Bytes → ℕ → Bool
is_nul p i = byte_at p i == 0

-- The C string that starts a block, without its NUL.
unfoldable pub c_string : Bytes → Bytes
c_string [] = []
c_string (c ∷ cs) = elim (c == 0) [ true ↦ [] | false ↦ c ∷ c_string cs ]
