-- ===== src/Send/Delivery.antt =====
-- What `pdip_send` and `pdip_write` bring to the terminal.
use win_pdip.Prelude.{
  ℕ, ◌+◌, ◌-◌, ◌≤◌, ◌<◌, ◌≡◌, ◌⊎◌, inl, inr, refl, subst, ap, true, false, Bool-cases, some, List,
  [], ◌∷◌, Bytes, length, take, ltb, leb, ◌==◌, arith,
}
use win_pdip.Outcome.{Errno, ok, err, enospc}
use win_pdip.Send.{
  WriteReply, interrupted, failed, wrote, Sent, returned, aborted, waiting, write_from, write,
  send_text, send,
}

-- `write` takes as many bytes as it was given at most: `k` are left.
abbrev pub Fitting : ℕ → List WriteReply → Type 0
Fitting k [] = Unit
Fitting k (wrote n ∷ rs) = (n ≤ k) × Fitting (k - n) rs
Fitting k (_ ∷ rs) = Fitting k rs

-- The terminal got the first bytes of the text; a number reported is how many, and it is all of
-- them unless the process died.
abbrev pub Delivered : Bytes → Sent → Type 0
Delivered buf (returned (ok n) got) = (n ≤ length buf) × (got ≡ take n buf)
Delivered buf (returned (err e) got) = (k : ℕ) × (k ≤ length buf) × (got ≡ take k buf)
Delivered buf (waiting got) = (k : ℕ) × (k ≤ length buf) × (got ≡ take k buf)
Delivered buf (aborted got) = ⊥

take_all : (buf : Bytes) → buf ≡ take (length buf) buf
take_all [] = refl
take_all (c ∷ cs) = ap (λ (t : Bytes). c ∷ t) (take_all cs)

write_from-Delivered :
    (buf : Bytes) (l : ℕ) (rs : List WriteReply)
    → l ≤ length buf
    → Fitting (length buf - l) rs
    → Delivered buf (write_from buf l rs)
unfolding write_from
write_from-Delivered buf l [] h f = (l, h, refl)
write_from-Delivered buf l (interrupted ∷ rs) h f = write_from-Delivered buf l rs h f
write_from-Delivered buf l (failed e true ∷ rs) h f = (l, h, refl)
write_from-Delivered buf l (failed e false ∷ rs) h f = elim (Bool-cases (l == 0)) [
  | inl nothing ↦ rw nothing (l, h, refl)
  | inr some_bytes ↦ rw some_bytes (h, refl)
]
write_from-Delivered buf l (wrote n ∷ rs) h f =
    let inside : leb (l + n) (length buf) ≡ true = ground arith in
    rw inside (elim (Bool-cases (l + n == length buf)) [
      | inl all ↦ rw all (omega arith, take_all buf)
      | inr more ↦ rw more (
          write_from-Delivered buf (l + n) rs (omega arith)
            (subst (λ (k : ℕ). Fitting k rs) (omega arith) f.1))
    ])

-- The answers take all of `k` bytes, in some number of steps.
abbrev pub Enough : ℕ → List WriteReply → Type 0
Enough k [] = ⊥
Enough k (interrupted ∷ rs) = Enough k rs
Enough k (failed e alive ∷ rs) = ⊥
Enough k (wrote n ∷ rs) = (n ≡ k) ⊎ ((n < k) × Enough (k - n) rs)

write_from-Enough :
    (buf : Bytes) (l : ℕ) (rs : List WriteReply)
    → l ≤ length buf
    → Enough (length buf - l) rs
    → write_from buf l rs ≡ returned (ok (length buf)) buf
unfolding write_from
write_from-Enough buf l [] h f = absurd f
write_from-Enough buf l (interrupted ∷ rs) h f = write_from-Enough buf l rs h f
write_from-Enough buf l (failed e alive ∷ rs) h f = absurd f
write_from-Enough buf l (wrote n ∷ rs) h (inl last) =
    let inside : leb (l + n) (length buf) ≡ true = ground arith in
    let all : (l + n == length buf) ≡ true = ground arith in rw (inside, all) refl
write_from-Enough buf l (wrote n ∷ rs) h (inr (less, f)) =
    let inside : leb (l + n) (length buf) ≡ true = ground arith in
    let more : (l + n == length buf) ≡ false = ground arith in
    rw (inside, more)
      (write_from-Enough buf (l + n) rs (omega arith)
        (subst (λ (k : ℕ). Enough k rs) (omega arith) f))

-- pdip_send to a live process of a text that vsnprintf gives: 4096 bytes or more fail with ENOSPC
-- and nothing is sent; for a shorter text, where write never takes more than it is given, no
-- assertion fails and the terminal gets the first bytes of the text, as many as a number reported
-- says; where the answers of write, with signals in between, take the whole text, the terminal
-- gets all of it and the call reports its length.
pub send-Delivered :
    (text : Bytes) (e : Errno) (rs : List WriteReply)
    → (4096 ≤ length text → send false true (some text) e rs ≡ returned (err enospc) [])
      × (length text < 4096
          → Fitting (length text) rs
          → Delivered text (send false true (some text) e rs))
      × (length text < 4096
          → Enough (length text) rs
          → send false true (some text) e rs ≡ returned (ok (length text)) text)
unfolding send send_text write
send-Delivered text e rs = (
  λ long. ground arith,
  λ short f.
      (let fits : ltb 4096 (length text + 1) ≡ false = ground arith in
        rw fits (
          write_from-Delivered text 0 rs (omega arith)
            (subst (λ (k : ℕ). Fitting k rs) (omega arith) f))),
  λ short f.
      (let fits : ltb 4096 (length text + 1) ≡ false = ground arith in
        rw fits (
          write_from-Enough text 0 rs (omega arith)
            (subst (λ (k : ℕ). Enough k rs) (omega arith) f))),
)
