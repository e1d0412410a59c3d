-- ===== src/Rsysd/Affinity/Numbers.antt =====
-- The text that is left from label to label of `rsysd_get_affinity`.
use win_pdip.Prelude.{
  ℕ, zero, suc, ◌+◌, ◌-◌, ◌*◌, ◌%◌, ◌^◌, ◌≤◌, ◌<◌, ◌≡◌, refl, ap, Option, some, [], ◌∷◌, Bytes,
  length, arith,
}
use win_pdip.Cpu.{cpu_zero}
use win_pdip.Rsysd.Affinity.{
  Rc, Label, beginning, state_1, state_2, state_3, rc_0, Next, goto, return, endless, scan_number,
  last_cpu, interval, set_from, behind_interval, set_range, clamp, follow, ignore, report, at_label,
  run, get_affinity,
}

pub length-scan_number : (acc : ℕ) (p : Bytes) → length (scan_number acc p).1 ≤ length p
unfolding scan_number
length-scan_number acc [] = omega arith
length-scan_number acc (c ∷ cs) =
    ground (arith, length-scan_number ((acc * 10 % 2 ^ 32 + (c - b'0')) % 2 ^ 32) cs)

module _ (nb_cpu : ℕ) (some_cpu : 0 < nb_cpu) (few : nb_cpu < 2 ^ 32) where
  abbrev Reads : Bytes → Next → Type 0
  Reads p (goto label q cpu) = length q < length p
  Reads p (return rc q cpu) = length q ≤ length p
  Reads p endless = ⊥

  behind_interval-Reads :
      (p q cpu : Bytes) → length q < length p → Reads p (behind_interval nb_cpu q cpu)
  unfolding behind_interval
  behind_interval-Reads p [] cpu h = omega arith
  behind_interval-Reads p (c ∷ cs) cpu h = ground arith

  -- A loop over an interval ends, since its end is a CPU.
  set_range-Reads :
      (p : Bytes) (start end : ℕ) (cpu : Bytes) (next : Bytes → Next)
      → end < nb_cpu
      → ((after : Bytes) → Reads p (next after))
      → Reads p (set_range nb_cpu start end cpu next)
  set_range-Reads p start end cpu next h k =
      ground (arith, k (set_from nb_cpu (end + 1 - start) start cpu))

  interval-Reads :
      (p : Bytes) (start end : ℕ) (q cpu : Bytes)
      → end < nb_cpu
      → length q < length p
      → Reads p (interval nb_cpu start end q cpu)
  unfolding interval
  interval-Reads p start end q cpu h l = ground (
    arith,
    set_range-Reads p start end cpu (behind_interval nb_cpu q) h
        (λ after. behind_interval-Reads p q after l),
  )

  pub clamp-lt : (n : ℕ) → clamp nb_cpu n < nb_cpu
  clamp-lt n = ground arith

  last_cpu-lt : last_cpu nb_cpu < nb_cpu
  last_cpu-lt = omega arith

  at_label-Reads : (label : Label) (p cpu : Bytes) → Reads p (at_label nb_cpu label p cpu)
  unfolding at_label
  at_label-Reads beginning [] cpu = omega arith
  at_label-Reads beginning (c ∷ cs) cpu = ground (arith, length-scan_number (c - b'0') cs)
  at_label-Reads state_1 [] cpu = omega arith
  at_label-Reads state_1 (c ∷ cs) cpu = ground (arith, length-scan_number (c - b'0') cs)
  at_label-Reads (state_2 start) [] cpu = omega arith
  at_label-Reads (state_2 start) (c ∷ cs) cpu = ground arith
  at_label-Reads (state_3 start) [] cpu =
      set_range-Reads [] start (last_cpu nb_cpu) cpu (return rc_0 []) last_cpu-lt
        (λ after. omega arith)
  at_label-Reads (state_3 start) (c ∷ cs) cpu =
      let (number, p) = scan_number (c - b'0') cs in
      ground (
        arith,
        set_range-Reads (c ∷ cs) start (last_cpu nb_cpu) cpu (return rc_0 (c ∷ cs)) last_cpu-lt
            (λ after. omega arith),
        interval-Reads (c ∷ cs) start (clamp nb_cpu number) p cpu (clamp-lt number)
            (omega (arith, length-scan_number (c - b'0') cs)),
      )

  -- The run gives a result, and leaves no more text than it got.
  abbrev Ends : Bytes → Option (Rc × Bytes × Bytes) → Type 0
  Ends p r =
      (rc : Rc) × (q : Bytes) × (after : Bytes) × (r ≡ some (rc, q, after)) × (length q ≤ length p)

  follow-Ends :
      (jump : Label → Bytes → Bytes → Option (Rc × Bytes × Bytes)) (p : Bytes) (n : Next)
      → Reads p n
      → ((label : Label) (q cpu : Bytes) → length q < length p → Ends q (jump label q cpu))
      → Ends p (follow jump n)
  follow-Ends jump p (goto label q cpu) h k =
      let (rc, r, after, e, le) = k label q cpu h in (rc, r, after, e, omega arith)
  follow-Ends jump p (return rc q cpu) h k = (rc, q, cpu, refl, h)
  follow-Ends jump p endless h k = absurd h

  pub run-Ends :
      (fuel : ℕ) (label : Label) (p cpu : Bytes)
      → length p < fuel
      → Ends p (run nb_cpu fuel label p cpu)
  unfolding run
  run-Ends zero label p cpu h = absurd (omega arith)
  run-Ends (suc fuel) label p cpu h =
      follow-Ends (run nb_cpu fuel) p (at_label nb_cpu label p cpu) (at_label-Reads label p cpu)
        (λ next q after less. run-Ends fuel next q after (omega arith))

  -- rsysd_get_affinity, where there is a CPU and fewer than 2^32 of them, returns whatever the
  -- text is, its loops over the intervals included, and the offset that it reports lies in the
  -- text.
  pub get_affinity_total :
      (affinity cpu : Bytes)
      → (rc : Rc) × (offset : ℕ) × (after : Bytes) × (get_affinity nb_cpu affinity cpu
          ≡ some (rc, offset, after))
        × (offset ≤ length affinity)
  unfolding get_affinity
  get_affinity_total affinity cpu =
      let (rc, q, after, e, le) =
        run-Ends (length affinity + 1) beginning affinity (ignore cpu (cpu_zero nb_cpu (some cpu)))
          (omega arith) in
      (rc, length affinity - length q, after, ap (report affinity) e, omega arith)
