-- ===== src/Recv/Flushing.antt =====
-- `pdip_flush_internal`: outstanding data that go to the user with no match.
use win_pdip.Prelude.{
  ℕ, ◌≡◌, refl, sym, ◌∙◌, true, Option, none, some, Bytes, get_or, arith, not, ◌==◌, ◌&&◌, ◌||◌,
}
use win_pdip.Recv.Machine.{World, is_null}
use win_pdip.Recv.Steps.{Rc, rc_0, flush_all, flush_internal}
use win_pdip.Recv.Invariant.{
  text, Fits, FitsAt, Holds, HoldsAt, Granted, IsIdle, text-empty, Holds→Fits, Good, Good-require,
}
use win_pdip.Recv.Reading.{Fits-reset}

-- All outstanding data are the user's, or there are none.
pub record Flushed (w : World) (rc : Rc) (v : World) : Type 0 where
  pub code : rc ≡ rc_0
  pub user : Fits v.user
  pub user_text : text v.user ≡ text w.kept
  pub user_len : v.user.len ≡ w.kept.len
  pub kept : Holds v.kept
  pub kept_empty : v.kept.len ≡ 0
  pub heap : v.heap ≡ w.heap
  pub reads : v.reads ≡ w.reads
  pub selects : v.selects ≡ w.selects
  pub left : v.left ≡ w.left

pub not_null :
    (p : Option Bytes) (sz len : ℕ) → FitsAt p sz len → (sz == 0 || not (is_null p)) ≡ true
not_null none sz len h = ground arith
not_null (some b) sz len h = ground arith

pub flush_all-Flushed :
    (w : World) (p : Option Bytes)
    → HoldsAt p w.kept.sz w.kept.len
    → Holds w.kept
    → Fits w.user
    → w.user.len ≡ 0
    → Granted w.heap
    → Good (Flushed w) (flush_all w p)
unfolding flush_all
flush_all-Flushed w none h hk f e g =
    let none_kept : w.kept.len ≡ 0 = h.1 in
    Good-require _ (w.kept.len == 0 && w.kept.sz == 0) _ (ground arith) (record {
      code = refl;
      user = Fits-reset w.user.mem w.user.sz w.user.len f e;
      user_text =
          text-empty (record { mem = w.user.mem; sz = w.user.sz; len = 0 }) refl
          ∙ sym (text-empty w.kept none_kept);
      user_len = sym none_kept;
      kept = hk;
      kept_empty = none_kept;
      heap = refl;
      reads = refl;
      selects = refl;
      left = refl;
    })
flush_all-Flushed w (some b) h hk f e g =
    Good-require _ (w.user.sz == 0 || not (is_null w.user.mem)) _
      (not_null w.user.mem w.user.sz w.user.len f)
      (Good-require _ (get_or b w.kept.len 256 == 0) _ (ground arith) (record {
        code = refl;
        user = Holds→Fits w.kept hk;
        user_text = refl;
        user_len = refl;
        kept = (refl, refl);
        kept_empty = refl;
        heap = refl;
        reads = refl;
        selects = refl;
        left = refl;
      }))

-- pdip_flush_internal on a well-formed context with an empty user buffer neither aborts nor fails:
-- it gives all outstanding data to the user and leaves none outstanding.
pub flush_internal-Flushed : (w : World) → IsIdle w → Good (Flushed w) (flush_internal w)
flush_internal-Flushed w idle =
    flush_all-Flushed w w.kept.mem idle.kept_holds idle.kept_holds idle.user_fits idle.user_empty
      idle.heap_granted
