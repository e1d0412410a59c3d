-- ===== src/Recv/Lines.antt =====
-- `pdip_flush_outstanding`: complete lines that go to the user with no match.
use win_pdip.Prelude.{
  ℕ, zero, suc, ◌+◌, ◌-◌, ◌≤◌, ◌<◌, ◌≡◌, ◌≢◌, ◌⊎◌, inl, inr, refl, sym, ap, ◌∙◌, false, Bool-cases,
  Option, none, some, List, Bytes, length, get_or, take, drop, set, arith, ◌==◌, if◌then◌else◌,
  length-take, length-drop, take-take_le, take-set, get_or-set_self, length-set, get_or-take,
}
use native.Mathlib.Decide.{dec_le}
use win_pdip.Recv.Machine.{Buf, null_buf, World, next_block, c_string}
use win_pdip.Recv.Steps.{
  Rc, rc_0, rc_1, last_newline, lines, split_rest, split_lines, flush_lines, flush_outstanding,
}
use win_pdip.Recv.Strings.{NoNul, NoNul-take, NoNul-drop, c_string-drop}
use win_pdip.Recv.Invariant.{
  text, text_at, Holds, HoldsAt, Granted, IsIdle, Good, Good-mono, Good-require,
}
use win_pdip.Recv.Room.{Granted-block}
use win_pdip.Recv.Matching.{Holds-copy, drop_all}

last_newline-suc :
    (b : Bytes) (i : ℕ)
    → last_newline b (suc i) ≡ (if get_or b (suc i) 256 == b'\n' then suc i else last_newline b i)
unfolding last_newline
last_newline-suc b i = ground arith

-- The loop stops at the last newline up to index `i`, or at index 0 if there is none.
record LastNewline (b : Bytes) (i p : ℕ) : Type 0 where
  within : p ≤ i
  none_behind : (j : ℕ) → p < j → j ≤ i → get_or b j 256 ≢ b'\n'
  stop : (p ≡ 0) ⊎ (get_or b p 256 ≡ b'\n')

last_newline_last : (b : Bytes) (i : ℕ) → LastNewline b i (last_newline b i)
last_newline_last b zero =
    unfold last_newline in
    record { within = omega arith; none_behind = λ j l h. absurd (omega arith); stop = inl refl }
last_newline_last b (suc i) = elim (Bool-cases (get_or b (suc i) 256 == b'\n')) [
  | inl here ↦
      rw (last_newline-suc b i, here)
        (record {
          within = omega arith;
          none_behind = λ j l h. absurd (omega arith);
          stop = inr (ground arith);
        })
  | inr further ↦
      let ih = last_newline_last b i in
      rw (last_newline-suc b i, further)
        (record {
          within = omega (arith, ih.within);
          none_behind = λ j l h. elim (dec_le j i) [
            | yes le ↦ ih.none_behind j l le
            | no gt ↦ let e : j ≡ suc i = omega arith in rw e (ground arith)
          ];
          stop = ih.stop;
        })
]

no_newline :
    {b : Bytes} {i p j : ℕ}
    → LastNewline b i p
    → (get_or b p 256 == b'\n') ≡ false
    → j ≤ i
    → get_or b j 256 ≢ b'\n'
no_newline {b} {i} {p} {j} last e le = elim last.stop [
  | inl first ↦ elim (dec_le j 0) [
    | yes z ↦ let same : j ≡ p = omega arith in rw same (ground arith)
    | no later ↦ last.none_behind j (omega arith) le
  ]
  | inr line ↦ absurd (ground arith)
]

-- What `pdip_flush_outstanding` leaves behind where a line is complete: the data up to the last
-- newline are the user's, and no newline is behind them.
pub record Split (w : World) (rc : Rc) (v : World) : Type 0 where
  pub code : rc ≡ rc_0
  pub size : ℕ
  pub some_line : 0 < size
  pub within : size ≤ w.kept.len
  pub newline : get_or (text w.kept) (size - 1) 256 ≡ b'\n'
  pub none_behind : (j : ℕ) → size ≤ j → j < w.kept.len → get_or (text w.kept) j 256 ≢ b'\n'
  pub user : Holds v.user
  pub user_text : text v.user ≡ take size (text w.kept)
  pub user_len : v.user.len ≡ size
  pub kept : Holds v.kept
  pub kept_text : text v.kept ≡ drop size (text w.kept)
  pub heap : Granted v.heap
  pub reads : v.reads ≡ w.reads
  pub selects : v.selects ≡ w.selects
  pub left : v.left ≡ w.left

-- No line is complete, and nothing changes.
pub record NoLine (w : World) (rc : Rc) (v : World) : Type 0 where
  pub code : rc ≡ rc_1
  pub none_at : (j : ℕ) → j < w.kept.len → get_or (text w.kept) j 256 ≢ b'\n'
  pub same : v ≡ w

module _ (w : World) (b : Bytes) (q : ℕ) (h : HoldsAt (some b) w.kept.sz w.kept.len)
    (t : text w.kept ≡ take w.kept.len b) (pos : 0 < q) (le : q ≤ w.kept.len)
    (nl : get_or b (q - 1) 256 ≡ b'\n')
    (behind : (j : ℕ) → q ≤ j → j < w.kept.len → get_or b j 256 ≢ b'\n') where
  front : take q (set b q 0) ≡ take q (text w.kept)
  front = rw t (take-set q q b 0 (omega arith) ∙ sym (take-take_le q w.kept.len b le))

  nul_free : NoNul (text w.kept)
  nul_free = rw t h.3

  -- The outstanding data `k` are what follows the lines.
  with_kept :
      (k : Buf) (heap : List (Option ℕ))
      → Holds k
      → text k ≡ drop q (text w.kept)
      → Granted heap
      → Split w rc_0 (record w { user = lines w b q; kept = k; heap = heap })
  with_kept k heap hk tk g = record {
    code = refl;
    size = q;
    some_line = pos;
    within = le;
    newline = rw t (get_or-take w.kept.len (q - 1) b 256 (omega arith) ∙ nl);
    none_behind = λ j a z. rw (t, get_or-take w.kept.len j b 256 z) (behind j a z);
    user = (
      length-set b q 0 ∙ h.0,
      omega arith,
      get_or-set_self b q 0 256 (omega arith),
      rw front (NoNul-take q (text w.kept) nul_free),
    );
    user_text = front;
    user_len = refl;
    kept = hk;
    kept_text = tk;
    heap = g;
    reads = refl;
    selects = refl;
    left = refl;
  }

  split_rest-Split :
      (j : ℕ) → Granted (next_block w.heap).1 → Good (Split w) (split_rest w b q (some j))
  unfolding split_rest
  split_rest-Split j g =
      let rest_is = c_string-drop q w.kept.len b le h.2 h.3 in
      let size : length (c_string (drop q b)) ≡ w.kept.len - q =
        rw rest_is (omega (arith, length-drop q (take w.kept.len b), length-take w.kept.len b)) in
      let (held, same) =
        Holds-copy (c_string (drop q b)) (w.kept.len - q)
          (rw rest_is (NoNul-drop q (take w.kept.len b) h.3)) size in
      Good-require _ (length (c_string (drop q b)) == w.kept.len - q) _ (ground arith)
        (with_kept _ (next_block w.heap).1 held (same ∙ rest_is ∙ ap (drop q) (sym t)) g)

  split_lines-Split : Granted w.heap → Good (Split w) (split_lines w b q)
  unfolding split_lines
  split_lines-Split g = elim (Bool-cases (q == w.kept.len)) [
    | inl all ↦ rw all (
        with_kept null_buf w.heap (refl, refl)
          (sym (drop_all q (text w.kept) (rw t (ground (arith, length-take w.kept.len b))))) g)
    | inr more ↦
        let (j, e, g') = Granted-block w.heap g in
        rw (more, ap (λ (x : Option ℕ × List (Option ℕ)). x.0) e) (split_rest-Split j g')
  ]

flush_lines-Split :
    (w : World) (p : Option Bytes)
    → HoldsAt p w.kept.sz w.kept.len
    → text w.kept ≡ text_at p w.kept.len
    → 0 < w.kept.len
    → Granted w.heap
    → Good (λ rc v. Split w rc v ⊎ NoLine w rc v) (flush_lines w p)
unfolding flush_lines
flush_lines-Split w none h t pos g = absurd (omega arith)
flush_lines-Split w (some b) h t pos g =
    let k : ℕ = w.kept.len in
    let last = last_newline_last b (k - 1) in
    let p : ℕ = last_newline b (k - 1) in
    let not_empty : (k == 0) ≡ false = ground arith in
    rw not_empty (
      Good-require _ (get_or b k 256 == 0) _ (ground arith)
        (elim (Bool-cases (get_or b p 256 == b'\n')) [
          | inl line ↦ rw line (
              Good-mono _ _ (split_lines w b (p + 1))
                (split_lines-Split w b (p + 1) h t (omega arith) (omega (arith, last.within))
                  (let e : p + 1 - 1 ≡ p = omega arith in rw e (ground arith))
                  (λ j a z. last.none_behind j (omega arith) (omega arith)) g)
                (λ rc v s. inl s))
          | inr no_line ↦ rw no_line (
              inr (record {
                code = refl;
                none_at =
                    λ j z. rw (t, get_or-take k j b 256 z) (no_newline last no_line (omega arith));
                same = refl;
              }))
        ]))

-- pdip_flush_outstanding on a well-formed context with outstanding data and an empty user buffer
-- neither aborts nor fails: it gives the user the data up to the last newline and keeps the
-- others, or changes nothing if there is no newline.
pub flush_outstanding-Split :
    (w : World)
    → IsIdle w
    → 0 < w.kept.len
    → Good (λ rc v. Split w rc v ⊎ NoLine w rc v) (flush_outstanding w)
flush_outstanding-Split w idle pos =
    flush_lines-Split w w.kept.mem idle.kept_holds refl pos idle.heap_granted
