-- ===== src/Prelude/Ints.antt =====
-- Signed integers; `negsuc n` is -(n + 1).
use Prim.Native.Nat.{ℕ, ◌-◌, ◌%◌, ◌^◌}
use mathlib.Core.Path.{◌≡◌, ap}
use mathlib.Core.Bool.{Bool, true, false}
use native.Mathlib.Omega.{arith}
use lance_c.Prelude.Tests.{◌==◌, ltb, if◌then◌else◌}
use mathlib.Core.Option.{Option, none, some}

pub data ℤ : Type 0 where
  pos : ℕ → ℤ
  negsuc : ℕ → ℤ

-- `usize::try_from`, of a number that is not too large
abbrev pub natural : ℤ → Option ℕ
natural (pos n) = some n
natural (negsuc n) = none

pub natural-some : (z : ℤ) {n : ℕ} → natural z ≡ some n → z ≡ pos n
natural-some (pos m) h = cc
natural-some (negsuc m) h = cc

abbrev pub z_eq : ℤ → ℤ → Bool
z_eq (pos m) (pos n) = m == n
z_eq (negsuc m) (negsuc n) = m == n
z_eq _ _ = false

pub z_eq_refl : (z : ℤ) → z_eq z z ≡ true
z_eq_refl (pos n) = ground arith
z_eq_refl (negsuc n) = ground arith

pub z_eq→eq : (y z : ℤ) → z_eq y z ≡ true → y ≡ z
z_eq→eq (pos m) (pos n) h = ap pos (ground (arith, h))
z_eq→eq (negsuc m) (negsuc n) h = ap negsuc (ground (arith, h))
z_eq→eq (pos m) (negsuc n) h = cc
z_eq→eq (negsuc m) (pos n) h = cc

-- `as i32`
abbrev pub as_i32 : ℕ → ℤ
as_i32 n = let m = n % 2 ^ 32 in if ltb m (2 ^ 31) then pos m else negsuc (2 ^ 32 - 1 - m)
