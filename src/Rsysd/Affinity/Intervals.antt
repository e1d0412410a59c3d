-- ===== src/Rsysd/Affinity/Intervals.antt =====
-- An interval with a comma behind it, as `rsysd_get_affinity` reads it.
use win_pdip.Prelude.{
  ℕ, zero, suc, ◌+◌, ◌-◌, ◌^◌, ◌≤◌, ◌<◌, ◌≡◌, refl, ap, sym, subst, ◌∙◌, true, false, some, ◌∷◌,
  ◌++◌, Bytes, length, ltb, ◌==◌, arith, length-append,
}
use win_pdip.Cpu.Members.{has, IsBitmap, cpu_all-Filled, cpu_zero-Emptied}
use win_pdip.Rsysd.Affinity.{
  Rc, state_1, state_3, new_field, behind_number, behind_interval, interval, behind_dash, follow,
  at_label, run, get_affinity, set_all, set_from, clamp,
}
use win_pdip.Rsysd.Affinity.Members.{Grows, GrowsTo, run-Grows, set_from-members}
use win_pdip.Rsysd.Affinity.Numbers.{clamp-lt, run-Ends}
use win_pdip.Rsysd.Affinity.Fields.{
  Number, digits, number, IsNumber, Behind, run-number, run_beginning, scan_number-value,
}

-- "a-b,", and what follows.
abbrev pub interval_comma : Number → Number → Bytes → Bytes
interval_comma a b rest = digits a ++ (b'-' ∷ (digits b ++ (b',' ∷ rest)))

module _ (nb_cpu : ℕ) (some_cpu : 0 < nb_cpu) (few : nb_cpu + 7 < 2 ^ 32) where
  -- Behind a dash, a number.
  at_dash :
      (start : ℕ) (n : Number) (rest cpu : Bytes)
      → IsNumber n
      → Behind rest
      → behind_dash nb_cpu start (digits n ++ rest) cpu
        ≡ interval nb_cpu start (clamp nb_cpu (number n)) rest cpu
  unfolding behind_dash
  at_dash start n rest cpu h b =
      ground (arith, scan_number-value (n.first - b'0') n.others rest h.0.2 b h.1)

  -- The digits behind the dash.
  run_dash :
      (fuel start : ℕ) (n : Number) (rest cpu : Bytes)
      → IsNumber n
      → Behind rest
      → run nb_cpu (suc fuel) (state_3 start) (digits n ++ rest) cpu
        ≡ follow (run nb_cpu fuel) (interval nb_cpu start (clamp nb_cpu (number n)) rest cpu)
  unfolding run at_label
  run_dash fuel start n rest cpu h b = ap (follow (run nb_cpu fuel)) (at_dash start n rest cpu h b)

  -- The comma behind an interval, and the comma as a field.
  run_comma :
      (fuel start end : ℕ) (rest cpu : Bytes)
      → start ≤ end
      → end < nb_cpu
      → follow (run nb_cpu (suc fuel)) (interval nb_cpu start end (b',' ∷ rest) cpu)
        ≡ run nb_cpu fuel state_1 rest
            (set_all nb_cpu (set_from nb_cpu (end + 1 - start) start cpu))
  unfolding run at_label interval behind_interval new_field
  run_comma fuel start end rest cpu le exists =
      let above : ltb end start ≡ false = ground arith in
      let ends : (end == 2 ^ 32 - 1) ≡ false = ground arith in rw (above, ends) refl

  -- The comma behind the interval is read as a field of its own, which selects all CPUs.
  run-interval_comma :
      (fuel : ℕ) (a b : Number) (rest cpu : Bytes)
      → IsNumber a
      → IsNumber b
      → clamp nb_cpu (number a) ≤ clamp nb_cpu (number b)
      → run nb_cpu (suc (suc (suc (suc fuel)))) state_1 (interval_comma a b rest) cpu
        ≡ run nb_cpu fuel state_1 rest (
            set_all nb_cpu (
              set_from nb_cpu
                (clamp nb_cpu (number b) + 1 - clamp nb_cpu (number a))
                (clamp nb_cpu (number a))
                cpu))
  unfolding behind_number
  run-interval_comma fuel a b rest cpu ha hb le =
      run-number nb_cpu some_cpu few (suc (suc fuel)) a (b'-' ∷ (digits b ++ (b',' ∷ rest))) cpu ha
        refl
      ∙ run_dash (suc fuel) (clamp nb_cpu (number a)) b (b',' ∷ rest) cpu hb refl
      ∙ run_comma fuel (clamp nb_cpu (number a)) (clamp nb_cpu (number b)) rest cpu le
          (clamp-lt nb_cpu some_cpu (omega (arith, few)) (number b))

  -- After a call that fills the bitmap, a run that ends has all CPUs.
  filled_stays :
      (fuel : ℕ) (p cpu : Bytes)
      → IsBitmap nb_cpu cpu
      → (rc : Rc) (q after : Bytes)
      → run nb_cpu fuel state_1 p (set_all nb_cpu cpu) ≡ some (rc, q, after)
      → (m : ℕ) → m < nb_cpu
      → has after m ≡ true
  filled_stays fuel p cpu v rc q after e m h =
      let (a, ea, va, members) = cpu_all-Filled nb_cpu v in
      let same : set_all nb_cpu cpu ≡ a = rw ea refl in
      let g : Grows nb_cpu a after =
        subst (GrowsTo nb_cpu a) (ap (run nb_cpu fuel state_1 p) (sym same) ∙ e)
          (run-Grows nb_cpu fuel state_1 p a va) in
      g.keeps m h (members m h)

  -- The same from the text of the interval on, with any fuel that is enough.
  interval_comma_fills :
      (fuel : ℕ) (a b : Number) (rest cpu : Bytes)
      → 4 ≤ fuel
      → IsNumber a
      → IsNumber b
      → clamp nb_cpu (number a) ≤ clamp nb_cpu (number b)
      → IsBitmap nb_cpu cpu
      → (rc : Rc) (q after : Bytes)
      → run nb_cpu fuel state_1 (interval_comma a b rest) cpu ≡ some (rc, q, after)
      → (m : ℕ) → m < nb_cpu
      → has after m ≡ true
  interval_comma_fills zero a b rest cpu h ha hb le v rc q after e = absurd (omega arith)
  interval_comma_fills (suc zero) a b rest cpu h ha hb le v rc q after e = absurd (omega arith)
  interval_comma_fills (suc (suc zero)) a b rest cpu h ha hb le v rc q after e =
      absurd (omega arith)
  interval_comma_fills (suc (suc (suc zero))) a b rest cpu h ha hb le v rc q after e =
      absurd (omega arith)
  interval_comma_fills (suc (suc (suc (suc fuel)))) a b rest cpu h ha hb le v rc q after e =
      let start : ℕ = clamp nb_cpu (number a) in
      let end : ℕ = clamp nb_cpu (number b) in
      filled_stays fuel rest (set_from nb_cpu (end + 1 - start) start cpu)
        (set_from-members nb_cpu (end + 1 - start) start v).0 rc q after
        (sym (run-interval_comma fuel a b rest cpu ha hb le) ∙ e)

  -- rsysd_get_affinity on a text that begins with an interval of CPUs, its start not above its
  -- end, and a comma returns and selects every CPU, whatever follows; there is a CPU, fewer than
  -- 2^32 - 7 of them, and the bitmap has room for them.
  pub get_affinity-interval_comma :
      (a b : Number) (rest cpu : Bytes)
      → IsNumber a
      → IsNumber b
      → clamp nb_cpu (number a) ≤ clamp nb_cpu (number b)
      → IsBitmap nb_cpu cpu
      → (rc : Rc) × (offset : ℕ) × (after : Bytes) × (get_affinity nb_cpu
            (interval_comma a b rest)
            cpu
          ≡ some (rc, offset, after))
        × ((m : ℕ) → m < nb_cpu → has after m ≡ true)
  unfolding get_affinity
  get_affinity-interval_comma a b rest cpu ha hb le v =
      let (z, ez, vz, none_in) = cpu_zero-Emptied nb_cpu v in
      let text : Bytes = interval_comma a b rest in
      let (rc, q, after, e, _) =
        run-Ends nb_cpu some_cpu (omega (arith, few)) (length text + 1) state_1 text z
          (omega arith) in
      (
        rc,
        length text - length q,
        after,
        rw (ez, run_beginning nb_cpu some_cpu few (length text + 1) text z, e) refl,
        interval_comma_fills (length text + 1) a b rest z
            (omega (
              arith,
              length-append a.others (b'-' ∷ (digits b ++ (b',' ∷ rest))),
              length-append b.others (b',' ∷ rest),
            ))
            ha hb le vz rc q after e,
      )
