-- ===== src/Prelude/Families.antt =====
-- Families indexed by the native numbers: one member changed, and how many of the first pass a test.
use Prim.Native.Nat.{ℕ, zero, suc, ◌+◌, ◌≤◌, ◌<◌}
use mathlib.Core.Path.{◌≡◌, refl}
use mathlib.Core.Bool.{Bool, true, false}
use native.Mathlib.Omega.{arith}
use lance_c.Prelude.Tests.{◌==◌, if◌then◌else◌}

abbrev pub flag : Bool → ℕ
flag true = 1
flag false = 0

module _ {ℓ} {A : Type ℓ} where
  abbrev pub update : (ℕ → A) → ℕ → A → ℕ → A
  update f i a j = if i == j then a else f j

  -- how many of the first `n` members pass a test
  abbrev pub count : (A → Bool) → ℕ → (ℕ → A) → ℕ
  count p zero f = 0
  count p (suc n) f = flag (p (f n)) + count p n f

  pub count-above :
      (p : A → Bool) (n : ℕ) (f : ℕ → A) (i : ℕ) (a : A)
      → n ≤ i
      → count p n (update f i a) ≡ count p n f
  count-above p zero f i a h = refl
  count-above p (suc n) f i a h = ground (arith, count-above p n f i a)

  pub count-update :
      (p : A → Bool) (n : ℕ) (f : ℕ → A) (i : ℕ) (a : A)
      → i < n
      → count p n (update f i a) + flag (p (f i)) ≡ count p n f + flag (p a)
  count-update p zero f i a h = omega (arith, h)
  count-update p (suc n) f i a h = ground (arith, count-update p n f i a, count-above p n f i a)

  pub count_le : (p : A → Bool) (n : ℕ) (f : ℕ → A) → count p n f ≤ n
  count_le p zero f = omega arith
  count_le p (suc n) f = ground (arith, count_le p n f)

  pub count-eq-zero :
      (p : A → Bool) (n : ℕ) (f : ℕ → A) (i : ℕ) → count p n f ≡ 0 → i < n → p (f i) ≡ false
  count-eq-zero p zero f i h k = ground (arith, k)
  count-eq-zero p (suc n) f i h k = ground (arith, count-eq-zero p n f i)
