-- ===== src/Rsysd/Affinity/Fields.antt =====
-- What a list of fields makes `rsysd_get_affinity` do: lists of CPU numbers, as documented.
use win_pdip.Prelude.{
  ℕ, zero, suc, ◌+◌, ◌-◌, ◌*◌, ◌%◌, ◌^◌, ◌≤◌, ◌<◌, ◌≡◌, refl, ap, sym, ◌∙◌, Bool, true, false, ◌||◌,
  ◌&&◌, leb, some, List, [], ◌∷◌, ◌++◌, Bytes, length, ◌==◌, arith, length-append, append-nil,
}
use win_pdip.Cpu.Members.{has, IsBitmap, cpu_zero-Emptied}
use win_pdip.Rsysd.Affinity.{
  rc_0, beginning, state_1, state_2, goto, is_digit, scan_number, new_field, behind_number, follow,
  report, at_label, run, get_affinity, set_one, clamp,
}
use win_pdip.Rsysd.Affinity.Members.{set_one-Added}

-- The value of a string of digits, with no bound.
abbrev pub value : ℕ → Bytes → ℕ
value acc [] = acc
value acc (c ∷ cs) = value (acc * 10 + (c - b'0')) cs

abbrev pub Digits : Bytes → Type 0
Digits [] = Unit
Digits (c ∷ cs) = (b'0' ≤ c) × (c ≤ b'9') × Digits cs

-- What can stand behind a number.
abbrev pub Behind : Bytes → Type 0
Behind [] = Unit
Behind (c ∷ cs) = is_digit c ≡ false

le-value : (acc : ℕ) (ds : Bytes) → acc ≤ value acc ds
le-value acc [] = omega arith
le-value acc (c ∷ cs) = omega (arith, le-value (acc * 10 + (c - b'0')) cs)

-- The scan stops behind the digits, with their value where that fits into 32 bits.
pub scan_number-value :
    (acc : ℕ) (ds rest : Bytes)
    → Digits ds
    → Behind rest
    → value acc ds < 2 ^ 32
    → scan_number acc (ds ++ rest) ≡ (value acc ds, rest)
unfolding scan_number
scan_number-value acc [] [] d b h = refl
scan_number-value acc [] (c ∷ cs) d b h = rw (b, scan_number) refl
scan_number-value acc (c ∷ cs) rest d b h =
    let digit : is_digit c ≡ true = ground arith in
    let bound = le-value (acc * 10 + (c - b'0')) cs in
    let same : (acc * 10 % 2 ^ 32 + (c - b'0')) % 2 ^ 32 ≡ acc * 10 + (c - b'0') = omega arith in
    rw (digit, scan_number, same) (scan_number-value (acc * 10 + (c - b'0')) cs rest d.2 b h)

-- A decimal number of a text.
pub record Number : Type 0 where
  pub first : ℕ
  pub others : Bytes

abbrev pub digits : Number → Bytes
digits n = n.first ∷ n.others

abbrev pub number : Number → ℕ
number n = value (n.first - b'0') n.others

-- It consists of digits and fits into 32 bits.
abbrev pub IsNumber : Number → Type 0
IsNumber n = Digits (digits n) × (number n < 2 ^ 32)

-- "n1,n2,..."
unfoldable pub render : Number → List Number → Bytes
render n [] = digits n
render n (k ∷ ks) = digits n ++ (b',' ∷ render k ks)

-- CPU `m` is the one of a number, or the last one where the number is too big.
abbrev pub chosen : ℕ → ℕ → ℕ → Bool
chosen nb_cpu n m = m == n || leb nb_cpu n && m + 1 == nb_cpu

-- CPU `m` is named.
unfoldable pub names : ℕ → Number → List Number → ℕ → Bool
names nb_cpu n [] m = chosen nb_cpu (number n) m
names nb_cpu n (k ∷ ks) m = chosen nb_cpu (number n) m || names nb_cpu k ks m

abbrev pub AreNumbers : List Number → Type 0
AreNumbers [] = Unit
AreNumbers (k ∷ ks) = IsNumber k × AreNumbers ks

module _ (nb_cpu : ℕ) (some_cpu : 0 < nb_cpu) (few : nb_cpu + 7 < 2 ^ 32) where
  chosen-clamp : (n m : ℕ) → m < nb_cpu → (m == clamp nb_cpu n) ≡ chosen nb_cpu n m
  chosen-clamp n m h = ground arith

  -- A new field that is a number.
  at_number :
      (n : Number) (rest cpu : Bytes)
      → IsNumber n
      → Behind rest
      → new_field nb_cpu (digits n ++ rest) cpu ≡ goto (state_2 (clamp nb_cpu (number n))) rest cpu
  unfolding new_field
  at_number n rest cpu h b =
      ground (arith, scan_number-value (n.first - b'0') n.others rest h.0.2 b h.1)

  -- Two gotos on, behind a number.
  pub run-number :
      (fuel : ℕ) (n : Number) (rest cpu : Bytes)
      → IsNumber n
      → Behind rest
      → run nb_cpu (suc (suc fuel)) state_1 (digits n ++ rest) cpu
        ≡ follow (run nb_cpu fuel) (behind_number nb_cpu (clamp nb_cpu (number n)) rest cpu)
  unfolding run at_label
  run-number fuel n rest cpu h b = ap (follow (run nb_cpu (suc fuel))) (at_number n rest cpu h b)

  -- What a run over a list of numbers gives.
  record Listed (n : Number) (ks : List Number) (cpu after : Bytes) : Type 0 where
    valid : IsBitmap nb_cpu after
    members : (m : ℕ) → m < nb_cpu → has after m ≡ (names nb_cpu n ks m || has cpu m)

  run-Listed :
      (fuel : ℕ) (n : Number) (ks : List Number) (cpu : Bytes)
      → length (render n ks) < fuel
      → IsNumber n
      → AreNumbers ks
      → IsBitmap nb_cpu cpu
      → (after : Bytes) × (run nb_cpu fuel state_1 (render n ks) cpu ≡ some (rc_0, [], after))
        × Listed n ks cpu after
  unfolding render names behind_number
  run-Listed zero n ks cpu h a ak v = absurd (omega arith)
  run-Listed (suc zero) n [] cpu h a ak v = absurd (omega arith)
  run-Listed (suc zero) n (k ∷ ks) cpu h a ak v = absurd (omega arith)
  run-Listed (suc (suc fuel)) n [] cpu h a ak v =
      let one = set_one-Added nb_cpu (clamp nb_cpu (number n)) v in
      (
        set_one nb_cpu cpu (clamp nb_cpu (number n)),
        ap (λ (t : Bytes). run nb_cpu (suc (suc fuel)) state_1 t cpu) (sym (append-nil (digits n)))
            ∙ run-number fuel n [] cpu a tt,
        record {
          valid = one.valid;
          members = λ m l. ground (arith, one.members m l, chosen-clamp (number n) m l);
        },
      )
  run-Listed (suc (suc fuel)) n (k ∷ ks) cpu h a ak v =
      let one = set_one-Added nb_cpu (clamp nb_cpu (number n)) v in
      let (after, e, r) =
        run-Listed fuel k ks (set_one nb_cpu cpu (clamp nb_cpu (number n)))
          (omega (arith, length-append (digits n) (b',' ∷ render k ks))) ak.0 ak.1 one.valid in
      (
        after,
        run-number fuel n (b',' ∷ render k ks) cpu a refl ∙ e,
        record {
          valid = r.valid;
          members =
              λ m l. ground (arith, r.members m l, one.members m l, chosen-clamp (number n) m l);
        },
      )

  pub run_beginning :
      (fuel : ℕ) (p cpu : Bytes) → run nb_cpu fuel beginning p cpu ≡ run nb_cpu fuel state_1 p cpu
  unfolding run at_label
  run_beginning zero p cpu = refl
  run_beginning (suc fuel) p cpu = refl

  report_end :
      (text after : Bytes) → report text (some (rc_0, [], after)) ≡ some (rc_0, length text, after)
  report_end text after = ap (λ k. some (rc_0, k, after)) (omega arith)

  -- rsysd_get_affinity on a comma-separated list of decimal numbers below 2^32 returns 0 at the
  -- end of the text, and an existing CPU is selected exactly if its number is in the list, or if
  -- it is the last CPU and a number in the list is not below the number of CPUs; there is a CPU,
  -- fewer than 2^32 - 7 of them, and the bitmap has room for them.
  pub get_affinity_numbers :
      (n : Number) (ks : List Number) (cpu : Bytes)
      → IsNumber n
      → AreNumbers ks
      → IsBitmap nb_cpu cpu
      → (after : Bytes) × (get_affinity nb_cpu (render n ks) cpu
          ≡ some (rc_0, length (render n ks), after))
        × ((m : ℕ) → m < nb_cpu → has after m ≡ names nb_cpu n ks m)
  unfolding get_affinity
  get_affinity_numbers n ks cpu a ak v =
      let (z, ez, vz, none_in) = cpu_zero-Emptied nb_cpu v in
      let text : Bytes = render n ks in
      let (after, e, r) = run-Listed (length text + 1) n ks z (omega arith) a ak vz in
      (
        after,
        rw (ez, run_beginning, e) (report_end text after),
        λ m l. ground (arith, r.members m l, none_in m l),
      )
