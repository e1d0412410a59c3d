-- ===== src/Recv/Invariant.antt =====
-- What is well formed between the steps of `pdip_recv`, and the data on their way to the user.
use win_pdip.Prelude.{
  Bool, true, arith, ℕ, ◌<◌, ◌≡◌, ◌⊎◌, inr, refl, sym, length-take, Option, none, some, List, [],
  ◌∷◌, ◌++◌, Bytes, length, get_or, take,
}
use win_pdip.Recv.Machine.{
  Buf, ReadReply, bytes, World, Outcome, done, aborted, waiting, out_of_fuel, ◌>>=◌, require,
  byte_at,
}
use win_pdip.Recv.Strings.{NoNul}

-- The data of a buffer.
abbrev pub text_at : Option Bytes → ℕ → Bytes
text_at none len = []
text_at (some b) len = take len b

abbrev pub text : Buf → Bytes
text b = text_at b.mem b.len

-- The pointer and the sizes agree, the data leave room for a NUL, which stands behind them unless
-- there are none, and no NUL is among them.
abbrev pub FitsAt : Option Bytes → ℕ → ℕ → Type 0
FitsAt none sz len = (sz ≡ 0) × (len ≡ 0)
FitsAt (some b) sz len =
    (length b ≡ sz) × (len < sz) × ((len ≡ 0) ⊎ (get_or b len 256 ≡ 0)) × NoNul (take len b)

abbrev pub Fits : Buf → Type 0
Fits b = FitsAt b.mem b.sz b.len

-- As `Fits`, with the NUL there in any case: what the outstanding data always are.
abbrev pub HoldsAt : Option Bytes → ℕ → ℕ → Type 0
HoldsAt none sz len = (sz ≡ 0) × (len ≡ 0)
HoldsAt (some b) sz len = (length b ≡ sz) × (len < sz) × (get_or b len 256 ≡ 0) × NoNul (take len b)

abbrev pub Holds : Buf → Type 0
Holds b = HoldsAt b.mem b.sz b.len

-- The terminal gives bytes, none of them NUL: `read` does not answer with 0 bytes.
abbrev pub Clean : List ReadReply → Type 0
Clean [] = Unit
Clean (ReadReply.interrupted ∷ rs) = Clean rs
Clean (ReadReply.failed e ∷ rs) = Clean rs
Clean (bytes bs ∷ rs) = (0 < length bs) × NoNul bs × Clean rs

-- The allocator never answers with null.
abbrev pub Granted : List (Option ℕ) → Type 0
Granted [] = Unit
Granted (none ∷ heap) = ⊥
Granted (some j ∷ heap) = Granted heap

-- The bytes that the terminal has still to deliver.
abbrev pub pending : List ReadReply → Bytes
pending [] = []
pending (ReadReply.interrupted ∷ rs) = pending rs
pending (ReadReply.failed e ∷ rs) = pending rs
pending (bytes bs ∷ rs) = bs ++ pending rs

-- Between two steps: nothing is in the user's buffer.
pub record IsIdle (w : World) : Type 0 where
  pub kept_holds : Holds w.kept
  pub user_fits : Fits w.user
  pub user_empty : w.user.len ≡ 0
  pub reads_clean : Clean w.reads
  pub heap_granted : Granted w.heap

-- What holds of each way that a step ends: it does not abort, nor run out of fuel.
abbrev pub Good {ℓ} : {A : Type ℓ} → (A → World → Type 0) → Outcome A → Type 0
Good P (done a w) = P a w
Good P waiting = Unit
Good P aborted = ⊥
Good P out_of_fuel = ⊥

pub Good->>= {ℓ κ} :
    {A : Type ℓ} {B : Type κ} (P : A → World → Type 0) (Q : B → World → Type 0) (m : Outcome A)
    (f : A → World → Outcome B)
    → Good P m
    → ((a : A) (w : World) → P a w → Good Q (f a w))
    → Good Q (m >>= f)
Good->>= P Q (done a w) f h k = k a w h
Good->>= P Q waiting f h k = tt
Good->>= P Q aborted f h k = absurd h
Good->>= P Q out_of_fuel f h k = absurd h

pub Good-mono {ℓ} :
    {A : Type ℓ} (P Q : A → World → Type 0) (m : Outcome A)
    → Good P m
    → ((a : A) (w : World) → P a w → Q a w)
    → Good Q m
Good-mono P Q (done a w) h k = k a w h
Good-mono P Q waiting h k = tt
Good-mono P Q aborted h k = absurd h
Good-mono P Q out_of_fuel h k = absurd h

pub text-empty : (b : Buf) → b.len ≡ 0 → text b ≡ []
text-empty b e = go b.mem
  where
    go : (p : Option Bytes) → text_at p b.len ≡ []
    go none = refl
    go (some d) = rw e

pub Holds→Fits : (b : Buf) → Holds b → Fits b
Holds→Fits b h = go b.mem h
  where
    go : (p : Option Bytes) → HoldsAt p b.sz b.len → FitsAt p b.sz b.len
    go none h = h
    go (some d) h = (h.0, h.1, inr h.2, h.3)

pub Good-require {ℓ} :
    {A : Type ℓ} (Q : A → World → Type 0) (test : Bool) (m : Outcome A)
    → test ≡ true
    → Good Q m
    → Good Q (require test m)
Good-require Q test m e h = rw e h

-- A buffer with data has a NUL behind them, inside its block.
pub Holds-ends : (b : Buf) → Holds b → 0 < b.len → (b.len < b.sz) × (byte_at b.mem b.len ≡ 0)
Holds-ends b h pos = go b.mem h
  where
    go : (p : Option Bytes) → HoldsAt p b.sz b.len → (b.len < b.sz) × (byte_at p b.len ≡ 0)
    go none h = absurd (omega arith)
    go (some d) h = (h.1, h.2)

-- The data that are still to come to the user, the outstanding ones first.
abbrev pub ahead : World → Bytes
ahead w = text w.kept ++ pending w.reads

pub length-text : (b : Buf) → Fits b → length (text b) ≡ b.len
length-text b h = go b.mem h
  where
    go : (p : Option Bytes) → FitsAt p b.sz b.len → length (text_at p b.len) ≡ b.len
    go none h = sym h.1
    go (some d) h = omega (arith, length-take b.len d)
