-- ===== src/Rsystem/Displays.antt =====
-- What `rsystem` of rsys/rsystem.c prints of a command's output, as the server sends it.
use win_pdip.Prelude.{
  ℕ, ◌+◌, ◌-◌, ◌*◌, ◌^◌, ◌≤◌, ◌<◌, Bool, true, bit_and, ltb, not, if◌then◌else◌, passes, passes_at,
  ◌≡◌, refl, sym, ap, ap₂, subst, ◌∙◌, false, none, List, [], ◌∷◌, ◌++◌, append_assoc, append-nil,
  map, ◌⊎◌, inl, inr, Bytes, length, ◌==◌, length-append, arith,
}
use win_pdip.Recv.Machine.{c_string}
use win_pdip.Recv.Strings.{NoNul}
use win_pdip.Rsystem.{
  DataReply, bytes, Reply, display, end_of_command, Outcome, returned, converted, show, receive,
}

-- The bytes that the reads of the data of a display give together.
abbrev pub joined : List Bytes → Bytes
joined [] = []
joined (b ∷ bs) = b ++ joined bs

-- Every read gives a byte at least.
abbrev pub AllFilled : List Bytes → Type 0
AllFilled [] = Unit
AllFilled (b ∷ bs) = (0 < length b) × AllFilled bs

-- A display of a text: its bytes and its NUL, with their length, in pieces of any size.
pub data IsDisplay : Reply → Bytes → Type 0 where
  pieces :
      (bs : List Bytes) {text : Bytes}
      → NoNul text
      → AllFilled bs
      → joined bs ≡ text ++ (0 ∷ [])
      → IsDisplay (display (length text + 1) (map bytes bs)) text

c_string-NoNul : (s : Bytes) → NoNul s → c_string s ≡ s
unfolding c_string
c_string-NoNul [] h = refl
c_string-NoNul (c ∷ s) h = ground (arith, c_string-NoNul s h.1)

c_string-ended : (s : Bytes) → NoNul s → c_string (s ++ (0 ∷ [])) ≡ s
unfolding c_string
c_string-ended [] h = refl
c_string-ended (c ∷ s) h = ground (arith, c_string-ended s h.1)

-- Where a piece ends: at the end of the display, or inside of its text.
piece-cases :
    (b r text : Bytes)
    → b ++ r ≡ text ++ (0 ∷ [])
    → 0 < length b
    → ((r ≡ []) × (b ≡ text ++ (0 ∷ [])))
      ⊎ ((more : Bytes) × (text ≡ b ++ more) × (r ≡ more ++ (0 ∷ [])))
piece-cases [] r text e h = absurd (omega arith)
piece-cases (c ∷ []) r [] e h = inl (cc e, cc e)
piece-cases (c ∷ []) r (t ∷ text) e h = inr (text, cc e, cc e)
piece-cases (c ∷ d ∷ b) r [] e h = absurd (cc e)
piece-cases (c ∷ d ∷ b) r (t ∷ text) e h = elim (piece-cases (d ∷ b) r text (cc e) (omega arith)) [
  | inl (nil, eq) ↦ inl (nil, cc (e, eq))
  | inr (more, eq, tail) ↦ inr (more, cc (e, eq), tail)
]

joined-nil : (bs : List Bytes) → AllFilled bs → joined bs ≡ [] → bs ≡ []
joined-nil [] h e = refl
joined-nil (b ∷ bs) h e = absurd (omega (arith, length-append b (joined bs), ap length e, h.0))

NoNul-right : (s t : Bytes) → NoNul (s ++ t) → NoNul t
NoNul-right [] t h = h
NoNul-right (c ∷ s) t h = NoNul-right s t h.1

NoNul-left : (s t : Bytes) → NoNul (s ++ t) → NoNul s
NoNul-left [] t h = tt
NoNul-left (c ∷ s) t h = (h.0, NoNul-left s t h.1)

show_end : (n : ℕ) (out : Bytes) (k : Bytes → Outcome) → n ≡ 0 → show n [] out k ≡ k out
unfolding show
show_end n out k e = rw e refl

show_piece :
    (n : ℕ) (b out : Bytes) (rs : List DataReply) (k : Bytes → Outcome)
    → (n == 0) ≡ false
    → show n (bytes b ∷ rs) out k ≡ show (n - length b) rs (out ++ c_string b) k
unfolding show
show_piece n b out rs k e = rw e refl

show-pieces :
    (bs : List Bytes) (text out : Bytes) (n : ℕ) (k : Bytes → Outcome)
    → NoNul text
    → AllFilled bs
    → joined bs ≡ text ++ (0 ∷ [])
    → n ≡ length text + 1
    → show n (map bytes bs) out k ≡ k (out ++ text)
show-pieces [] text out n k clean full e h =
    absurd (omega (arith, length-append text (0 ∷ []), ap length e))
show-pieces (b ∷ bs) text out n k clean full e h =
    show_piece n b out (map bytes bs) k (ground arith)
    ∙ elim (piece-cases b (joined bs) text e full.0) [
      | inl (nil, eq) ↦ last nil eq
      | inr (more, eq, tail) ↦
          show-pieces bs more (out ++ c_string b) (n - length b) k
            (NoNul-right b more (subst NoNul eq clean)) full.1 tail
            (omega (arith, length-append b more, ap length eq))
          ∙ ap k (regrouped more eq)
    ]
  where
    last :
        joined bs ≡ []
        → b ≡ text ++ (0 ∷ [])
        → show (n - length b) (map bytes bs) (out ++ c_string b) k ≡ k (out ++ text)
    last nil eq =
        ap₂ (λ rs t. show (n - length b) (map bytes rs) (out ++ t) k) (joined-nil bs full.1 nil)
          (ap c_string eq ∙ c_string-ended text clean)
        ∙ show_end (n - length b) (out ++ text) k
            (omega (arith, length-append text (0 ∷ []), ap length eq))

    regrouped : (more : Bytes) → text ≡ b ++ more → (out ++ c_string b) ++ more ≡ out ++ text
    regrouped more eq =
        append_assoc out (c_string b) more
        ∙ ap (λ t. out ++ (t ++ more)) (c_string-NoNul b (NoNul-left b more (subst NoNul eq clean)))
        ∙ ap (◌++◌ out) (sym eq)

abbrev same : Bool → Bool → Bool
same a b = if a then b else not b

same→≡ : (a b : Bool) → same a b ≡ true → a ≡ b
same→≡ a b h = ground arith

-- Displays, one behind the other, of texts.
pub data AreDisplays : List Reply → Bytes → Type 0 where
  none_left : AreDisplays [] []
  one_more :
      {r : Reply} {rs : List Reply} {text more : Bytes}
      → IsDisplay r text
      → AreDisplays rs more
      → AreDisplays (r ∷ rs) (text ++ more)

-- What the status of a shell is for the caller: an exit code stands in the bits 8 to 15, as in a
-- wait status; a status of 128 and above is the one of a signal, with bit 7, and it is kept, and so
-- is the -1 of a command without a status.
pub data IsWaitStatus : ℕ → ℕ → Type 0 where
  exit_code : {s : ℕ} → s < 128 → IsWaitStatus s (s * 256)
  signal : {s : ℕ} → 128 ≤ s → s < 256 → IsWaitStatus s s
  no_status : IsWaitStatus (2 ^ 32 - 1) (2 ^ 32 - 1)

sign_table : passes (λ s. same (bit_and s 0x80 == 0) (ltb s 128)) 256 ≡ true
unfolding passes
sign_table = refl

-- Bit 7 of a byte
sign_bit : (s : ℕ) → s < 256 → (bit_and s 0x80 == 0) ≡ ltb s 128
sign_bit s h =
    let e = passes_at (λ k. same (bit_and k 0x80 == 0) (ltb k 128)) 256 sign_table s h in
    same→≡ _ _ e

converted-IsWaitStatus : {s r : ℕ} → IsWaitStatus s r → converted s ≡ r
converted-IsWaitStatus (exit_code {s = s} h) = ground (arith, sign_bit s (omega arith))
converted-IsWaitStatus (signal {s = s} h k) = ground (arith, sign_bit s k)
converted-IsWaitStatus no_status = refl

receive_displays :
    (rs later : List Reply) (out text : Bytes) (s : ℕ)
    → AreDisplays rs text
    → receive (rs ++ (end_of_command s ∷ later)) out ≡ returned (converted s) none (out ++ text)
unfolding receive
receive_displays _ later out _ s none_left = ap (returned (converted s) none) (sym (append-nil out))
receive_displays _ later out _ s
      (one_more {rs = rs} {more = more} (pieces bs {text = text} clean full e) ds) =
    show-pieces bs text out (length text + 1) _ clean full e refl
    ∙ receive_displays rs later (out ++ text) more s ds
    ∙ ap (returned (converted s) none) (append_assoc out text more)

-- What rsystem does with the answers to a command: where the server sends any number of texts
-- without NUL, each as a display of its bytes and a NUL, read in pieces of any size, and then the
-- end of the command with a status below 256 or the 32 bits of -1, the call prints the texts, all
-- of them, in order and once, and returns the status times 256 if it is below 128, and else the
-- status as it is.
pub receive-AreDisplays :
    (rs later : List Reply) (out text : Bytes) (s r : ℕ)
    → AreDisplays rs text
    → IsWaitStatus s r
    → receive (rs ++ (end_of_command s ∷ later)) out ≡ returned r none (out ++ text)
receive-AreDisplays rs later out text s r ds w =
    receive_displays rs later out text s ds
    ∙ ap (λ k. returned k none (out ++ text)) (converted-IsWaitStatus w)
