-- ===== src/Rsysd/Affinity/Members.antt =====
-- What the steps of `rsysd_get_affinity` do to the members of the bitmap.
use win_pdip.Prelude.{
  ℕ, zero, suc, ◌+◌, ◌-◌, ◌<◌, ◌≡◌, true, ◌&&◌, ◌||◌, Option, none, some, [], ◌∷◌, Bytes, ltb, leb,
  ◌==◌, if◌then◌else◌, arith,
}
use native.Mathlib.Decide.{dec_lt}
use win_pdip.Cpu.Members.{has, IsBitmap, cpu_set-Updated, cpu_all-Filled}
use win_pdip.Rsysd.Affinity.{
  Rc, Label, beginning, state_1, state_2, state_3, Next, goto, return, endless, rc_0, set_range,
  scan_number, new_field, behind_number, behind_interval, interval, behind_dash, follow, at_label,
  run, set_one, set_all, set_from, clamp, last_cpu,
}

module _ (nb_cpu : ℕ) where
  -- `set_one` adds the CPU, if it exists.
  pub record Added (cpu : Bytes) (n : ℕ) (after : Bytes) : Type 0 where
    pub valid : IsBitmap nb_cpu after
    pub members : (m : ℕ) → m < nb_cpu → has after m ≡ (if m == n then true else has cpu m)

  pub set_one-Added :
      {cpu : Bytes} (n : ℕ) → IsBitmap nb_cpu cpu → Added cpu n (set_one nb_cpu cpu n)
  set_one-Added {cpu} n v = elim (dec_lt n nb_cpu) [
    | yes h ↦
        let (after, e, u) = (cpu_set-Updated nb_cpu n v).0 h in
        rw e (record { valid = u.valid; members = λ m _. u.members m })
    | no h ↦
        rw ((cpu_set-Updated nb_cpu n v).1 (omega arith))
          (record { valid = v; members = λ m l. ground arith })
  ]

  -- The loop adds the CPUs from `i` on, as many as there are rounds.
  pub set_from-members :
      (rounds i : ℕ) {cpu : Bytes}
      → IsBitmap nb_cpu cpu
      → IsBitmap nb_cpu (set_from nb_cpu rounds i cpu)
        × ((m : ℕ)
            → m < nb_cpu
            → has (set_from nb_cpu rounds i cpu) m ≡ (leb i m && ltb m (i + rounds) || has cpu m))
  unfolding set_from
  set_from-members zero i v = (v, λ m h. ground arith)
  set_from-members (suc rounds) i {cpu} v =
      let one = set_one-Added i v in
      let ih = set_from-members rounds (i + 1) one.valid in
      (ih.0, λ m h. ground (arith, ih.1 m h, one.members m h))

  -- The bitmap stays well formed and loses no member.
  pub record Grows (cpu after : Bytes) : Type 0 where
    pub valid : IsBitmap nb_cpu after
    pub keeps : (m : ℕ) → m < nb_cpu → has cpu m ≡ true → has after m ≡ true

  -- What a label ends in, if it ends.
  abbrev GrowsIn : Bytes → Next → Type 0
  GrowsIn cpu (goto label p after) = Grows cpu after
  GrowsIn cpu (return rc p after) = Grows cpu after
  GrowsIn cpu endless = Unit

  module _ {cpu : Bytes} (v : IsBitmap nb_cpu cpu) where
    same-Grows : Grows cpu cpu
    same-Grows = record { valid = v; keeps = λ m h e. e }

    set_one-Grows : (n : ℕ) → Grows cpu (set_one nb_cpu cpu n)
    set_one-Grows n =
        let a = set_one-Added n v in
        record { valid = a.valid; keeps = λ m h e. ground (arith, a.members m h) }

    set_from-Grows : (rounds i : ℕ) → Grows cpu (set_from nb_cpu rounds i cpu)
    set_from-Grows rounds i =
        let a = set_from-members rounds i v in
        record { valid = a.0; keeps = λ m h e. ground (arith, a.1 m h) }

    set_all-Grows : Grows cpu (set_all nb_cpu cpu)
    set_all-Grows =
        let (after, e, valid, members) = cpu_all-Filled nb_cpu v in
        rw e (record { valid = valid; keeps = λ m h _. members m h })

    new_field-Grows : (p : Bytes) → GrowsIn cpu (new_field nb_cpu p cpu)
    unfolding new_field
    new_field-Grows [] = set_all-Grows
    new_field-Grows (c ∷ cs) = ground (arith, set_all-Grows, same-Grows)

    behind_number-Grows : (start : ℕ) (p : Bytes) → GrowsIn cpu (behind_number nb_cpu start p cpu)
    unfolding behind_number
    behind_number-Grows start [] = set_one-Grows start
    behind_number-Grows start (c ∷ cs) = ground (arith, set_one-Grows start, same-Grows)

  behind_interval-Grows :
      (p : Bytes) {cpu after : Bytes}
      → Grows cpu after
      → GrowsIn cpu (behind_interval nb_cpu p after)
  unfolding behind_interval
  behind_interval-Grows [] g = g
  behind_interval-Grows (c ∷ cs) g = ground arith

  module _ {cpu : Bytes} (v : IsBitmap nb_cpu cpu) where
    set_range-Grows :
        (start end : ℕ) (next : Bytes → Next)
        → ((after : Bytes) → Grows cpu after → GrowsIn cpu (next after))
        → GrowsIn cpu (set_range nb_cpu start end cpu next)
    set_range-Grows start end next k = ground (
      arith,
      k (set_from nb_cpu (end + 1 - start) start cpu) (set_from-Grows v (end + 1 - start) start),
    )

    interval-Grows : (start end : ℕ) (p : Bytes) → GrowsIn cpu (interval nb_cpu start end p cpu)
    unfolding interval
    interval-Grows start end p = ground (
      arith,
      same-Grows v,
      set_range-Grows start end (behind_interval nb_cpu p) (λ after g. behind_interval-Grows p g),
    )

    behind_dash-Grows : (start : ℕ) (p : Bytes) → GrowsIn cpu (behind_dash nb_cpu start p cpu)
    unfolding behind_dash
    behind_dash-Grows start [] =
        set_range-Grows start (last_cpu nb_cpu) (return rc_0 []) (λ after g. g)
    behind_dash-Grows start (c ∷ cs) =
        let (number, p) = scan_number (c - b'0') cs in
        ground (
          arith,
          same-Grows v,
          set_range-Grows start (last_cpu nb_cpu) (return rc_0 (c ∷ cs)) (λ after g. g),
          interval-Grows start (clamp nb_cpu number) p,
        )

    at_label-Grows : (label : Label) (p : Bytes) → GrowsIn cpu (at_label nb_cpu label p cpu)
    unfolding at_label
    at_label-Grows beginning p = new_field-Grows v p
    at_label-Grows state_1 p = new_field-Grows v p
    at_label-Grows (state_2 start) p = behind_number-Grows v start p
    at_label-Grows (state_3 start) p = behind_dash-Grows start p

  -- What a run gives, if it ends.
  abbrev pub GrowsTo : Bytes → Option (Rc × Bytes × Bytes) → Type 0
  GrowsTo cpu none = Unit
  GrowsTo cpu (some (rc, q, after)) = Grows cpu after

  GrowsTo-trans :
      {cpu b : Bytes} (r : Option (Rc × Bytes × Bytes)) → Grows cpu b → GrowsTo b r → GrowsTo cpu r
  GrowsTo-trans none g h = tt
  GrowsTo-trans (some (rc, q, after)) g h = record {
    valid = h.valid;
    keeps = λ m l e. h.keeps m l (g.keeps m l e);
  }

  follow-Grows :
      (jump : Label → Bytes → Bytes → Option (Rc × Bytes × Bytes)) (cpu : Bytes) (n : Next)
      → GrowsIn cpu n
      → ((label : Label) (p b : Bytes) → IsBitmap nb_cpu b → GrowsTo b (jump label p b))
      → GrowsTo cpu (follow jump n)
  follow-Grows jump cpu (goto label p b) g k =
      GrowsTo-trans (jump label p b) g (k label p b g.valid)
  follow-Grows jump cpu (return rc p b) g k = g
  follow-Grows jump cpu endless g k = tt

  -- A run that ends keeps the bitmap well formed and loses no member.
  pub run-Grows :
      (fuel : ℕ) (label : Label) (p cpu : Bytes)
      → IsBitmap nb_cpu cpu
      → GrowsTo cpu (run nb_cpu fuel label p cpu)
  unfolding run
  run-Grows zero label p cpu v = tt
  run-Grows (suc fuel) label p cpu v =
      follow-Grows (run nb_cpu fuel) cpu (at_label nb_cpu label p cpu) (at_label-Grows v label p)
        (λ next q b w. run-Grows fuel next q b w)
