-- ===== src/Prelude/Results.antt =====
-- Results that carry an error: Rust's `Result<T, E>`, with its early return `?` as bind.
use mathlib.Core.Path.{◌≡◌, refl}
use mathlib.Core.Bool.{Bool, true, false}
use mathlib.Core.Option.{Option, none, some}

pub data Result {ℓ κ} (E : Type ℓ) (A : Type κ) : Type (ℓ ⊔ κ) where
  ok : A → Result E A
  err : E → Result E A

-- A test that returns early with an error.
abbrev pub guard {ℓ} : {E : Type ℓ} → Bool → E → Result E (Unit {0})
guard true e = ok tt
guard false e = err e

abbrev pub ok_or {ℓ κ} : {E : Type ℓ} {A : Type κ} → Option A → E → Result E A
ok_or none e = err e
ok_or (some a) e = ok a

infixl 5 ◌>>=◌ ◌>>◌
abbrev pub ◌>>=◌ {ℓ κ μ} :
    {E : Type ℓ} {A : Type κ} {B : Type μ} → Result E A → (A → Result E B) → Result E B
ok a >>= f = f a
err e >>= f = err e

abbrev pub ◌>>◌ {ℓ κ} : {E : Type ℓ} {B : Type κ} → Result E (Unit {0}) → Result E B → Result E B
m >> k = m >>= λ _. k

-- A bind succeeds only through a first part that does.
pub ok_of_bind {ℓ κ μ} :
    {E : Type ℓ} {A : Type κ} {B : Type μ} (m : Result E A) (f : A → Result E B) {b : B}
    → (m >>= f) ≡ ok b
    → (a : A) × (m ≡ ok a) × (f a ≡ ok b)
ok_of_bind (ok a) f h = (a, refl, h)
ok_of_bind (err e) f h = cc

-- What follows a test that returns early runs only where the test holds.
pub past_guard {ℓ κ} :
    {E : Type ℓ} {B : Type κ} (b : Bool) (e : E) (k : Result E B) {v : B}
    → (guard b e >> k) ≡ ok v
    → (b ≡ true) × (k ≡ ok v)
past_guard true e k h = (refl, h)
past_guard false e k h = cc

pub ok_inj {ℓ κ} : {E : Type ℓ} {B : Type κ} {a b : B} → Path (Result E B) (ok a) (ok b) → a ≡ b
ok_inj h = cc

pub some_of_ok_or {ℓ κ} :
    {E : Type ℓ} {A : Type κ} (o : Option A) (e : E) {a : A} → ok_or o e ≡ ok a → o ≡ some a
some_of_ok_or none e h = cc
some_of_ok_or (some a) e h = cc
