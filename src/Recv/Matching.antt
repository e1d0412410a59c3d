-- ===== src/Recv/Matching.antt =====
-- `pdip_look_for_regex`: where the outstanding data are cut at a match.
use win_pdip.Prelude.{
  ℕ, zero, suc, ◌+◌, ◌-◌, ◌≤◌, ◌<◌, ◌≡◌, ◌⊎◌, inl, inr, refl, sym, ap, ◌∙◌, Bool-cases, get_or-take,
  Option, none, some, List, [], ◌∷◌, ◌++◌, Bytes, length, get_or, take, drop, arith, ltb, ltb→lt,
  ◌==◌, ◌&&◌, if◌then◌else◌, append-nil, length-take, length-drop, take-take_le, take-append_eq,
  take-set, get_or-set_self, length-set, length-append, get_or-append_right,
}
use win_pdip.Recv.Machine.{null_buf, World, done, next_block, c_string}
use win_pdip.Recv.Steps.{
  Rc, rc_0, rc_1, whole, hand_over, keep_rest, cut_match, at_match, search_kept, look_for_regex,
  append_to_outstanding, end_of_match,
}
use win_pdip.Recv.Strings.{NoNul, NoNul-take, NoNul-drop, c_string-block, c_string-drop}
use win_pdip.Recv.Invariant.{
  text, text_at, Fits, Holds, HoldsAt, Granted, Clean, IsIdle, text-empty, Good, Good->>=,
  Good-mono, Good-require,
}
use win_pdip.Recv.Room.{Granted-block}
use win_pdip.Recv.Keeping.{Appended, append_to_outstanding-Appended}

-- The match of data `t` ends at `eo`: what precedes is the user's, the remainder is outstanding.
pub record Matched (t : Bytes) (eo : ℕ) (w : World) (rc : Rc) (v : World) : Type 0 where
  pub code : rc ≡ rc_0
  pub user : Holds v.user
  pub user_text : text v.user ≡ take eo t
  pub user_len : v.user.len ≡ eo
  pub kept : Holds v.kept
  pub kept_text : text v.kept ≡ drop eo t
  pub heap : Granted v.heap
  pub reads : v.reads ≡ w.reads
  pub selects : v.selects ≡ w.selects
  pub left : v.left ≡ w.left

pub drop_all {ℓ} : {A : Type ℓ} (n : ℕ) (xs : List A) → length xs ≤ n → drop n xs ≡ []
drop_all zero [] h = refl
drop_all zero (x ∷ xs) h = absurd (omega arith)
drop_all (suc n) [] h = refl
drop_all (suc n) (x ∷ xs) h = drop_all n xs (omega arith)

-- A string and its NUL in a block of their own.
pub Holds-copy :
    (s : Bytes) (l : ℕ)
    → NoNul s
    → length s ≡ l
    → HoldsAt (some (s ++ 0 ∷ [])) (l + 1) l × (take l (s ++ 0 ∷ []) ≡ s)
Holds-copy s l n e =
    let front = take-append_eq l s (0 ∷ []) (sym e) in
    (
      (
        omega (arith, length-append s (0 ∷ [])),
        omega arith,
        get_or-append_right s (0 ∷ []) l 0 256 (omega arith),
        rw front n,
      ),
      front,
    )

module _ (b : Bytes) (k eo : ℕ) (hb : get_or b k 256 ≡ 0) (n : NoNul (take k b)) (le : eo ≤ k)
    (lt : k < length b) where
  rest_is : c_string (drop eo b) ≡ drop eo (take k b)
  rest_is = c_string-drop eo k b le hb n

  length-rest : length (c_string (drop eo b)) ≡ k - eo
  length-rest = rw rest_is (omega (arith, length-drop eo (take k b), length-take k b))

  hand_over-Matched :
      (w v : World)
      → v.user.sz ≡ length b
      → Holds v.kept
      → text v.kept ≡ drop eo (take k b)
      → Granted v.heap
      → v.reads ≡ w.reads
      → v.selects ≡ w.selects
      → v.left ≡ w.left
      → Good (Matched (take k b) eo w) (hand_over v b eo)
  unfolding hand_over
  hand_over-Matched w v es hk tk g r s l =
      let front = take-set eo eo b 0 (omega arith) ∙ sym (take-take_le eo k b le) in
      Good-require _ (ltb eo (length b)) _ (ground arith) (record {
        code = refl;
        user = (
          length-set b eo 0 ∙ sym es,
          omega arith,
          get_or-set_self b eo 0 256 (omega arith),
          rw front (NoNul-take eo (take k b) n),
        );
        user_text = front;
        user_len = refl;
        kept = hk;
        kept_text = tk;
        heap = g;
        reads = r;
        selects = s;
        left = l;
      })

  keep_rest-Matched :
      (w : World) (j : ℕ)
      → w.kept.len ≡ k
      → w.kept.sz ≡ length b
      → eo < k
      → Granted (next_block w.heap).1
      → Good (Matched (take k b) eo w) (keep_rest w b eo (some j))
  unfolding keep_rest
  keep_rest-Matched w j el es less g =
      let l : ℕ = w.kept.len - eo in
      let rest : Bytes = c_string (drop eo b) in
      let u : World = record w {
        kept = null_buf;
        user = record { mem = some (rest ++ 0 ∷ []); sz = l + 1; len = l };
        heap = (next_block w.heap).1;
      } in
      let (held, front) =
        Holds-copy rest l (rw rest_is (NoNul-drop eo (take k b) n)) (omega (arith, length-rest)) in
      Good->>= (Appended [] (take l (rest ++ 0 ∷ [])) u) _ (append_to_outstanding u) _
        (append_to_outstanding-Appended u g (refl, refl) held (omega arith))
        λ rc v a. rw a.code (
          hand_over-Matched w (record v { user = whole w.kept.sz }) es a.holds
            (a.is_text ∙ front ∙ rest_is) a.heap a.reads a.selects a.left)

  cut_match-Matched :
      (w : World)
      → w.kept.len ≡ k
      → w.kept.sz ≡ length b
      → Granted w.heap
      → Good (Matched (take k b) eo w) (cut_match w b eo)
  unfolding cut_match
  cut_match-Matched w el es g =
      Good-require _
        (get_or b w.kept.len 256 == 0 && length (c_string (drop eo b)) == w.kept.len - eo) _
        (ground (arith, length-rest))
        (elim (Bool-cases (w.kept.len - eo == 0)) [
          | inl all ↦ rw all (
              hand_over-Matched w (record w { kept = null_buf; user = whole w.kept.sz }) es
                (refl, refl) (sym (drop_all eo (take k b) (ground (arith, length-take k b)))) g refl
                refl refl)
          | inr more ↦
              let (j, e, g') = Granted-block w.heap g in
              rw (more, ap (λ (x : Option ℕ × List (Option ℕ)). x.0) e)
                (keep_rest-Matched w j el es (ground arith) g')
        ])

-- `regexec` reports the end of a match inside the string.
abbrev pub IsBounded : (Bytes → Option ℕ) → Type 0
IsBounded regexec = (s : Bytes) (eo : ℕ) → regexec s ≡ some eo → eo ≤ length s

-- No match in the data `t`, which stay outstanding.
pub record Unmatched (regexec : Bytes → Option ℕ) (t : Bytes) (w : World) (rc : Rc) (v : World)
    : Type 0 where
  pub code : rc ≡ rc_1
  pub refused : (t ≡ []) ⊎ (regexec t ≡ none)
  pub idle : IsIdle v
  pub kept_text : text v.kept ≡ t
  pub reads : v.reads ≡ w.reads
  pub selects : v.selects ≡ w.selects
  pub left : v.left ≡ w.left

-- A match in the data `t`, at which they are cut.
pub record Found (regexec : Bytes → Option ℕ) (t : Bytes) (w : World) (rc : Rc) (v : World)
    : Type 0 where
  pub eo : ℕ
  pub match : regexec t ≡ some eo
  pub cut : Matched t (end_of_match t eo) w rc v

abbrev pub Looked : (Bytes → Option ℕ) → Bytes → World → Rc → World → Type 0
Looked regexec t w rc v = Found regexec t w rc v ⊎ Unmatched regexec t w rc v

-- The same, seen from a state before that has the same answers to come.
Looked-before :
    (regexec : Bytes → Option ℕ) (t : Bytes) (w u : World) (rc : Rc) (v : World)
    → u.reads ≡ w.reads
    → u.selects ≡ w.selects
    → u.left ≡ w.left
    → Looked regexec t u rc v
    → Looked regexec t w rc v
Looked-before regexec t w u rc v r s l (inl f) = inl (record {
  eo = f.eo;
  match = f.match;
  cut = record {
    code = f.cut.code;
    user = f.cut.user;
    user_text = f.cut.user_text;
    user_len = f.cut.user_len;
    kept = f.cut.kept;
    kept_text = f.cut.kept_text;
    heap = f.cut.heap;
    reads = f.cut.reads ∙ r;
    selects = f.cut.selects ∙ s;
    left = f.cut.left ∙ l;
  };
})
Looked-before regexec t w u rc v r s l (inr n) = inr (record {
  code = n.code;
  refused = n.refused;
  idle = n.idle;
  kept_text = n.kept_text;
  reads = n.reads ∙ r;
  selects = n.selects ∙ s;
  left = n.left ∙ l;
})

end_of_match-take : (b : Bytes) (k eo : ℕ) → 0 < k → end_of_match b eo ≡ end_of_match (take k b) eo
end_of_match-take b k eo h = rw (get_or-take k 0 b 256 h)

end_of_match-le : (b : Bytes) (k eo : ℕ) → 0 < k → eo ≤ k → end_of_match b eo ≤ k
end_of_match-le b k eo h le = ground arith

module _ (regexec : Bytes → Option ℕ) (bounded : IsBounded regexec) where
  at_match-Looked :
      (w : World) (b : Bytes) (answer : Option ℕ)
      → HoldsAt (some b) w.kept.sz w.kept.len
      → regexec (take w.kept.len b) ≡ answer
      → text w.kept ≡ take w.kept.len b
      → 0 < w.kept.len
      → IsIdle w
      → Good (Looked regexec (take w.kept.len b) w) (at_match w b answer)
  unfolding at_match
  at_match-Looked w b none h e t pos idle = inr (record {
    code = refl;
    refused = inr e;
    idle = idle;
    kept_text = t;
    reads = refl;
    selects = refl;
    left = refl;
  })
  at_match-Looked w b (some eo) h e t pos idle =
      let k : ℕ = w.kept.len in
      let le : eo ≤ k = omega (arith, bounded (take k b) eo e, length-take k b) in
      Good-mono _ _ (cut_match w b (end_of_match b eo))
        (cut_match-Matched b k (end_of_match b eo) h.2 h.3 (end_of_match-le b k eo pos le)
          (omega arith) w refl (sym h.0) idle.heap_granted)
        (λ rc v m. inl (record { eo = eo; match = e; cut = rw (← end_of_match-take b k eo pos) m }))

  search_kept-Looked :
      (w : World) (p : Option Bytes)
      → HoldsAt p w.kept.sz w.kept.len
      → text w.kept ≡ text_at p w.kept.len
      → 0 < w.kept.len
      → IsIdle w
      → Good (Looked regexec (text_at p w.kept.len) w) (search_kept regexec w p)
  unfolding search_kept
  search_kept-Looked w none h t pos idle = absurd (omega arith)
  search_kept-Looked w (some b) h t pos idle =
      at_match-Looked w b _ h (ap regexec (sym (c_string-block w.kept.len b h.2 h.3))) t pos idle

  -- The search once nothing is in the user's buffer.
  searched-Looked :
      (w : World)
      → IsIdle w
      → Good
          (Looked regexec (text w.kept) w)
          (if ltb 0 w.kept.len then search_kept regexec w w.kept.mem else done rc_1 w)
  searched-Looked w idle = elim (Bool-cases (ltb 0 w.kept.len)) [
    | inl more ↦
        rw more (search_kept-Looked w w.kept.mem idle.kept_holds refl (ltb→lt _ _ more) idle)
    | inr empty ↦ rw empty (
        inr (record {
          code = refl;
          refused = inl (text-empty w.kept (ground arith));
          idle = idle;
          kept_text = refl;
          reads = refl;
          selects = refl;
          left = refl;
        }))
  ]

  pub look_for_regex-Looked :
      (w : World)
      → Holds w.kept
      → Fits w.user
      → (0 < w.user.len → Holds w.user)
      → Clean w.reads
      → Granted w.heap
      → Good (Looked regexec (text w.kept ++ text w.user) w) (look_for_regex regexec w)
  unfolding look_for_regex
  look_for_regex-Looked w hk fu hu c g = elim (Bool-cases (w.user.len == 0)) [
    | inl none_read ↦
        let e : w.user.len ≡ 0 = ground arith in
        rw (none_read, text-empty w.user e, append-nil)
          (searched-Looked w (record {
            kept_holds = hk;
            user_fits = fu;
            user_empty = e;
            reads_clean = c;
            heap_granted = g;
          }))
    | inr read_some ↦
        let pos : 0 < w.user.len = ground arith in
        rw read_some (
          Good->>= (Appended (text w.kept) (text w.user) w) _ (append_to_outstanding w) _
            (append_to_outstanding-Appended w g hk (hu pos) pos)
            λ rc v a.
              rw (a.code, ← a.is_text)
                (Good-mono _ _
                  (if ltb 0 v.kept.len then search_kept regexec v v.kept.mem else done rc_1 v)
                  (searched-Looked v (record {
                    kept_holds = a.holds;
                    user_fits = rw a.user (refl, refl);
                    user_empty = rw a.user refl;
                    reads_clean = rw a.reads c;
                    heap_granted = a.heap;
                  }))
                  (λ rc u. Looked-before regexec (text v.kept) w v rc u a.reads a.selects a.left)))
  ]
