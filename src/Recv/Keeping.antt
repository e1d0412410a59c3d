-- ===== src/Recv/Keeping.antt =====
-- `pdip_append_to_outstanding`: the user's data go behind the outstanding data.
use win_pdip.Prelude.{
  ℕ, ◌+◌, ◌-◌, ◌<◌, ◌≡◌, inl, inr, refl, sym, ap, ◌∙◌, true, false, Bool-cases, Option, none, some,
  List, ◌++◌, Bytes, length, get_or, take, arith, ltb, ◌==◌, leb, ◌&&◌, length-take, write_at,
  take-write_at, length-write_at, get_or-write_at, get_or-take, take-append_ge, take-take_le,
  take-append_le,
}
use win_pdip.Recv.Machine.{null_buf, is_nul, World, grown, next_block}
use win_pdip.Recv.Steps.{Rc, rc_0, copy_onto, append_onto, append_to_outstanding}
use win_pdip.Recv.Strings.{NoNul, NoNul-append}
use win_pdip.Recv.Invariant.{text, text_at, Holds, HoldsAt, Granted, Good, Good-require, Holds-ends}
use win_pdip.Recv.Room.{Granted-block, length-grown}

-- A block that holds `k` bytes of text, and the `u` bytes of a string copied behind them.
module _ (b d : Bytes) (k u : ℕ) (room : k + u < length b) (have : u < length d)
    (ends : get_or d u 256 ≡ 0) where
  copied : Bytes
  copied = write_at b k (take (u + 1) d)

  length-copied : length copied ≡ length b
  unfolding copied
  length-copied = length-write_at b (take (u + 1) d) k (omega (arith, length-take (u + 1) d))

  take-copied : take (k + u) copied ≡ take k b ++ take u d
  unfolding copied
  take-copied =
      sym (take-take_le (k + u) (k + (u + 1)) _ (omega arith))
      ∙ ap (take (k + u)) (
          take-write_at b (take (u + 1) d) k (k + (u + 1)) (omega arith)
            (omega (arith, length-take (u + 1) d)))
      ∙ take-append_ge (k + u) u (take k b) (take (u + 1) d) (omega (arith, length-take k b))
      ∙ ap (◌++◌ (take k b)) (take-take_le u (u + 1) d (omega arith))

  nul-copied : get_or copied (k + u) 256 ≡ 0
  unfolding copied
  nul-copied =
      get_or-write_at b (take (u + 1) d) k (k + u) u 256 (omega arith)
        (omega (arith, length-take (u + 1) d)) refl
      ∙ get_or-take (u + 1) u d 256 (omega arith)
      ∙ ends

-- What `pdip_append_to_outstanding` leaves behind, with `kept_text` outstanding before and
-- `user_text` in the user's buffer.
pub record Appended (kept_text user_text : Bytes) (w : World) (rc : Rc) (v : World) : Type 0 where
  pub code : rc ≡ rc_0
  pub user : v.user ≡ null_buf
  pub holds : Holds v.kept
  pub is_text : text v.kept ≡ kept_text ++ user_text
  pub len : v.kept.len ≡ w.kept.len + w.user.len
  pub heap : Granted v.heap
  pub reads : v.reads ≡ w.reads
  pub selects : v.selects ≡ w.selects
  pub left : v.left ≡ w.left

copy_onto-Appended :
    (w : World) (heap : List (Option ℕ)) (c t : Bytes) (sz : ℕ) (p : Option Bytes)
    → Granted heap
    → HoldsAt p w.user.sz w.user.len
    → 0 < w.user.len
    → take w.kept.len c ≡ t
    → NoNul t
    → sz ≡ length c
    → w.kept.len + w.user.len < length c
    → Good (Appended t (text_at p w.user.len) w) (copy_onto (record w { heap = heap }) c sz p)
unfolding copy_onto
copy_onto-Appended w heap c t sz none g hu pos same n es room = absurd (omega arith)
copy_onto-Appended w heap c t sz (some d) g hu pos same n es room =
    let inside : (ltb (w.kept.len + w.user.len) (length c) && ltb w.user.len (length d)) ≡ true =
      ground arith in
    let joined =
      take-copied c d w.kept.len w.user.len room (omega arith) hu.2
      ∙ ap (λ (x : Bytes). x ++ take w.user.len d) same in
    rw inside (
      unfold copied in
      record {
        code = refl;
        user = refl;
        holds = (
          length-copied c d w.kept.len w.user.len room (omega arith) hu.2 ∙ sym es,
          omega arith,
          nul-copied c d w.kept.len w.user.len room (omega arith) hu.2,
          rw joined (NoNul-append t (take w.user.len d) n hu.3),
        );
        is_text = joined;
        len = refl;
        heap = g;
        reads = refl;
        selects = refl;
        left = refl;
      })

append_onto-Appended :
    (w : World) (p : Option Bytes)
    → Granted w.heap
    → HoldsAt p w.kept.sz w.kept.len
    → Holds w.user
    → 0 < w.user.len
    → Good (Appended (text_at p w.kept.len) (text w.user) w) (append_onto w p)
unfolding append_onto
append_onto-Appended w none g hk hu pos =
    Good-require _ (w.kept.sz == 0 && w.kept.len == 0) _ (ground arith) (record {
      code = refl;
      user = refl;
      holds = hu;
      is_text = refl;
      len = omega (arith, hk);
      heap = g;
      reads = refl;
      selects = refl;
      left = refl;
    })
append_onto-Appended w (some b) g hk hu pos =
    Good-require _ (ltb 0 w.kept.sz && get_or b w.kept.len 256 == 0 && leb w.kept.len w.kept.sz) _
      (ground arith)
      (elim (Bool-cases (ltb (w.kept.sz - (w.kept.len + 1)) w.user.len)) [
        | inl small ↦
            let (j, e, g') = Granted-block w.heap g in
            let n : ℕ = w.kept.sz + w.user.len in
            let size =
              length-grown (some b) w.kept.sz w.kept.len n j (hk.0, hk.1, inr hk.2, hk.3)
                (omega arith) in
            rw small (
              rw e (
                copy_onto-Appended w (next_block w.heap).1 (grown (some b) n j) (take w.kept.len b)
                  n w.user.mem g' hu pos
                  (take-append_le w.kept.len (take n b) _ (omega (arith, length-take n b))
                    ∙ take-take_le w.kept.len n b (omega arith))
                  hk.3 (sym size) (omega (arith, size))))
        | inr large ↦ rw large (
            copy_onto-Appended w w.heap b (take w.kept.len b) w.kept.sz w.user.mem g hu pos refl
              hk.3 (sym hk.0) (ground arith))
      ])

-- pdip_append_to_outstanding on well-formed buffers, with data in the one of the user and an
-- allocator that gives memory, neither aborts nor fails: the data stand behind the outstanding
-- ones, NUL terminated, and the buffer of the user is null.
pub append_to_outstanding-Appended :
    (w : World)
    → Granted w.heap
    → Holds w.kept
    → Holds w.user
    → 0 < w.user.len
    → Good (Appended (text w.kept) (text w.user) w) (append_to_outstanding w)
unfolding append_to_outstanding
append_to_outstanding-Appended w g hk hu pos =
    let some_data : (w.user.len == 0) ≡ false = ground arith in
    let ends = Holds-ends w.user hu pos in
    rw some_data (
      Good-require _ (ltb w.user.len w.user.sz && is_nul w.user.mem w.user.len) _ (ground arith)
        (append_onto-Appended w w.kept.mem g hk hu pos))
