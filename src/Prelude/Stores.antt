-- ===== src/Prelude/Stores.antt =====
-- Stores as functions of an address.
use Prim.Native.Nat.{ℕ}
use mathlib.Core.Path.{◌≡◌}
use mathlib.Core.Logic.{◌≢◌}
use native.Mathlib.Omega.{arith}
use win_pdip.Prelude.Tests.{◌==◌, if◌then◌else◌}

-- A store of a value at an address
abbrev pub put {ℓ} : {A : Type ℓ} → (ℕ → A) → ℕ → A → ℕ → A
put f a v x = if x == a then v else f x

pub put_self {ℓ} : {A : Type ℓ} (f : ℕ → A) (a : ℕ) (v : A) → put f a v a ≡ v
put_self f a v = ground arith

pub put_other {ℓ} : {A : Type ℓ} (f : ℕ → A) (a : ℕ) (v : A) (x : ℕ) → x ≢ a → put f a v x ≡ f x
put_other f a v x h = ground arith
