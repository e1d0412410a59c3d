-- ===== src/Recv/Strings.antt =====
-- C strings in blocks: what `strlen`, `strdup` and `regexec` see of a NUL-terminated block.
use win_pdip.Prelude.{
  ℕ, zero, suc, ◌≤◌, ◌≡◌, ◌≢◌, refl, [], ◌∷◌, ◌++◌, Bytes, get_or, take, drop, arith,
}
use win_pdip.Recv.Machine.{c_string}

abbrev pub NoNul : Bytes → Type 0
NoNul [] = Unit
NoNul (c ∷ cs) = (c ≢ 0) × NoNul cs

pub NoNul-append : (s t : Bytes) → NoNul s → NoNul t → NoNul (s ++ t)
NoNul-append [] t h k = k
NoNul-append (c ∷ s) t h k = (h.0, NoNul-append s t h.1 k)

pub NoNul-take : (n : ℕ) (s : Bytes) → NoNul s → NoNul (take n s)
NoNul-take zero s h = tt
NoNul-take (suc n) [] h = tt
NoNul-take (suc n) (c ∷ s) h = (h.0, NoNul-take n s h.1)

pub NoNul-drop : (n : ℕ) (s : Bytes) → NoNul s → NoNul (drop n s)
NoNul-drop zero s h = h
NoNul-drop (suc n) [] h = tt
NoNul-drop (suc n) (c ∷ s) h = NoNul-drop n s h.1

-- A block whose first `n` bytes are followed by a NUL is read as these bytes.
pub c_string-block :
    (n : ℕ) (b : Bytes) → get_or b n 256 ≡ 0 → NoNul (take n b) → c_string b ≡ take n b
unfolding c_string
c_string-block zero [] e h = refl
c_string-block zero (c ∷ b) e h = ground arith
c_string-block (suc n) [] e h = refl
c_string-block (suc n) (c ∷ b) e h = ground (arith, c_string-block n b e h.1)

-- The same from offset `q` on.
pub c_string-drop :
    (q n : ℕ) (b : Bytes)
    → q ≤ n
    → get_or b n 256 ≡ 0
    → NoNul (take n b)
    → c_string (drop q b) ≡ drop q (take n b)
c_string-drop zero n b l e h = c_string-block n b e h
c_string-drop (suc q) zero b l e h = absurd (omega arith)
c_string-drop (suc q) (suc n) [] l e h = unfold c_string in refl
c_string-drop (suc q) (suc n) (c ∷ b) l e h = c_string-drop q n b (omega arith) e h.1
