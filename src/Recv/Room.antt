-- ===== src/Recv/Room.antt =====
-- The room for a read: `pdip_read`, the enlargement of the buffer of the user, and what is stored in it.
use win_pdip.Prelude.{
  ℕ, ◌+◌, ◌-◌, ◌≤◌, ◌<◌, ◌≡◌, inl, inr, refl, ◌∙◌, true, Bool-cases, Option, none, some, List, [],
  ◌∷◌, ◌++◌, Bytes, length, get_or, take, drop, set, arith, ltb, append_assoc, take-append-drop,
  length-take, length-drop, write_at, take-write_at, length-write_at, take-set, get_or-set_self,
  length-set, replicate, length-replicate, length-append, take_all,
}
use win_pdip.Outcome.{Result, ok, err}
use win_pdip.Recv.Machine.{ReadReply, bytes, World, grown, next_block}
use win_pdip.Recv.Steps.{read, enlarge, store}
use win_pdip.Recv.Strings.{NoNul, NoNul-take, NoNul-drop}
use win_pdip.Recv.Invariant.{text, Fits, FitsAt, Holds, Clean, Granted, pending, IsIdle, Good}
use win_pdip.Recv.{fuel_for}

abbrev pub ReadPost : ℕ → List ReadReply → Option (Result Bytes × List ReadReply) → Type 0
ReadPost l rs none = Unit
ReadPost l rs (some (ok bs, later)) =
    (0 < length bs)
    × (length bs ≤ l)
    × NoNul bs
    × (bs ++ pending later ≡ pending rs)
    × Clean later
    × (fuel_for later < fuel_for rs)
ReadPost l rs (some (err e, later)) =
    (pending later ≡ pending rs) × Clean later × (fuel_for later < fuel_for rs)

pub read_bytes :
    (l : ℕ) (bs : Bytes) (rs : List ReadReply)
    → Clean (bytes bs ∷ rs)
    → 0 < l
    → ReadPost l (bytes bs ∷ rs) (read (bytes bs ∷ rs) l)
unfolding read fuel_for
read_bytes l bs rs h pos = elim (Bool-cases (ltb l (length bs))) [
  | inl more ↦ rw more (
      ground (
        arith,
        length-take l bs,
        length-drop l bs,
        NoNul-take l bs,
        NoNul-drop l bs,
        append_assoc (take l bs) (drop l bs) (pending rs),
        take-append-drop l bs,
      ))
  | inr all ↦ rw all (ground (arith, take_all l bs))
]

pub ReadPost-interrupted :
    (l : ℕ) (rs : List ReadReply) (r : Option (Result Bytes × List ReadReply))
    → ReadPost l rs r
    → ReadPost l (ReadReply.interrupted ∷ rs) r
unfolding fuel_for
ReadPost-interrupted l rs none h = tt
ReadPost-interrupted l rs (some (ok bs, later)) h = ground arith
ReadPost-interrupted l rs (some (err e, later)) h = ground arith

pub read-Post : (l : ℕ) (rs : List ReadReply) → Clean rs → 0 < l → ReadPost l rs (read rs l)
unfolding read fuel_for
read-Post l [] h pos = tt
read-Post l (ReadReply.interrupted ∷ rs) h pos = ReadPost-interrupted l rs _ (read-Post l rs h pos)
read-Post l (ReadReply.failed e ∷ rs) h pos = (refl, h, omega arith)
read-Post l (bytes bs ∷ rs) h pos = read_bytes l bs rs h pos

-- The user's empty buffer with room for two bytes and more.
pub record Roomy (w v : World) : Type 0 where
  pub fits : Fits v.user
  pub empty : v.user.len ≡ 0
  pub room : 1 < v.user.sz
  pub heap : Granted v.heap
  pub kept : v.kept ≡ w.kept
  pub reads : v.reads ≡ w.reads
  pub selects : v.selects ≡ w.selects
  pub left : v.left ≡ w.left

pub length-grown :
    (p : Option Bytes) (sz len n j : ℕ) → FitsAt p sz len → sz ≤ n → length (grown p n j) ≡ n
length-grown none sz len n j h le = length-replicate n j
length-grown (some b) sz len n j h le = omega (
  arith,
  length-append (take n b) (replicate (n - length b) j),
  length-take n b,
  length-replicate (n - length b) j,
)

pub Granted-block :
    (heap : List (Option ℕ))
    → Granted heap
    → (j : ℕ) × (next_block heap ≡ (some j, (next_block heap).1)) × Granted (next_block heap).1
Granted-block [] h = (0, refl, tt)
Granted-block (none ∷ heap) h = absurd h
Granted-block (some j ∷ heap) h = (j, refl, h)

pub enlarge-Roomy :
    (increment : ℕ) (w : World)
    → 1 < increment
    → IsIdle w
    → (v : World) × (enlarge increment w ≡ some v) × Roomy w v
unfolding enlarge
enlarge-Roomy increment w big idle = elim (Bool-cases (ltb (w.user.sz - w.user.len) increment)) [
  | inl small ↦
      let (j, e, g) = Granted-block w.heap idle.heap_granted in
      let n : ℕ = w.user.sz + increment in
      let size = length-grown w.user.mem w.user.sz w.user.len n j idle.user_fits (omega arith) in
      (
        record w {
          user = record { mem = some (grown w.user.mem n j); sz = n; len = w.user.len };
          heap = (next_block w.heap).1;
        },
        rw small (rw e refl),
        record {
          fits = (size, omega arith, inl idle.user_empty, rw idle.user_empty tt);
          empty = idle.user_empty;
          room = omega arith;
          heap = g;
          kept = refl;
          reads = refl;
          selects = refl;
          left = refl;
        },
      )
  | inr large ↦ (w, rw large, ground (arith, idle.kept_holds))
]

-- The user's buffer after `store`, and what `store` leaves alone.
pub record Stored (bs : Bytes) (w : World) (u : Unit {0}) (v : World) : Type 0 where
  pub holds : Holds v.user
  pub is_text : text v.user ≡ bs
  pub len : v.user.len ≡ length bs
  pub heap : v.heap ≡ w.heap
  pub kept : v.kept ≡ w.kept
  pub reads : v.reads ≡ w.reads
  pub selects : v.selects ≡ w.selects
  pub left : v.left ≡ w.left

module _ (b bs : Bytes) (len : ℕ) (e : len ≡ 0) (h : length bs < length b) where
  stored : Bytes
  stored = set (write_at b len bs) (len + length bs) 0

  take-stored : take (len + length bs) stored ≡ bs
  unfolding stored
  take-stored =
      take-set (len + length bs) (len + length bs) (write_at b len bs) 0 (omega arith)
      ∙ take-write_at b bs len (len + length bs) (omega arith) refl
      ∙ rw e

  length-stored : length stored ≡ length b
  unfolding stored
  length-stored = omega (
    arith,
    length-set (write_at b len bs) (len + length bs) 0,
    length-write_at b bs len (omega arith),
  )

  nul-stored : get_or stored (len + length bs) 256 ≡ 0
  unfolding stored
  nul-stored =
      get_or-set_self (write_at b len bs) (len + length bs) 0 256
        (omega (arith, length-write_at b bs len (omega arith)))

pub store-Stored :
    (bs : Bytes) (w : World) (p : Option Bytes)
    → FitsAt p w.user.sz w.user.len
    → w.user.len ≡ 0
    → NoNul bs
    → length bs < w.user.sz
    → Good (Stored bs w) (store bs w p)
unfolding store
store-Stored bs w none f e n h = absurd (omega arith)
store-Stored bs w (some b) f e n h =
    let inside : ltb (w.user.len + length bs) (length b) ≡ true = ground arith in
    let same = take-stored b bs w.user.len e (omega arith) in
    rw inside (record {
      holds = (
        unfold stored in (length-stored b bs w.user.len e (omega arith) ∙ f.0),
        omega arith,
        unfold stored in nul-stored b bs w.user.len e (omega arith),
        unfold stored in rw same n,
      );
      is_text = unfold stored in same;
      len = omega arith;
      heap = refl;
      kept = refl;
      reads = refl;
      selects = refl;
      left = refl;
    })
