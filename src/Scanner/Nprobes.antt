-- ===== src/Scanner/Nprobes.antt =====
-- `NprobesRange`: the search range that three setters share.
use lance_c.Prelude.{
  ℕ, ◌≤◌, ◌<◌, Option, none, some, Bool, true, Result, ok, ◌>>◌, guard, not, ◌≡◌, ◌==◌, ltb, arith,
}
use lance_c.Ffi.LastError.{LanceError}
use lance_c.Scanner.Config.{NprobesRange, invalid}

unfoldable pub exact : ℕ → Result LanceError NprobesRange
exact nprobes = do
  guard (not (nprobes == 0)) (invalid "nprobes must be greater than 0, got 0")
  ok (record { minimum = some nprobes; maximum = some nprobes })

-- whether a bound, if there is one, leaves room for `n`
abbrev pub at_most : ℕ → Option ℕ → Bool
at_most n none = true
at_most n (some bound) = not (ltb bound n)

abbrev pub at_least : ℕ → Option ℕ → Bool
at_least n none = true
at_least n (some bound) = not (ltb n bound)

unfoldable pub with_minimum : NprobesRange → ℕ → Result LanceError NprobesRange
with_minimum r minimum = do
  guard (not (minimum == 0)) (invalid "minimum_nprobes must be greater than 0, got 0")
  guard (at_most minimum r.maximum) (invalid "minimum_nprobes must not exceed maximum_nprobes")
  ok (record r { minimum = some minimum })

unfoldable pub with_maximum : NprobesRange → ℕ → Result LanceError NprobesRange
with_maximum r maximum = do
  guard (not (maximum == 0)) (invalid "maximum_nprobes must be greater than 0, got 0")
  guard (at_least maximum r.minimum)
      (invalid "maximum_nprobes must not be less than minimum_nprobes")
  ok (record r { maximum = some maximum })

-- Both bounds are positive, and the lower is at most the upper.
abbrev pub Positive : Option ℕ → Type 0
Positive none = Unit
Positive (some n) = 0 < n

abbrev pub Ordered : Option ℕ → Option ℕ → Type 0
Ordered (some a) (some b) = a ≤ b
Ordered _ _ = Unit

pub record IsRange (r : NprobesRange) : Type 0 where
  pub minimum_positive : Positive r.minimum
  pub maximum_positive : Positive r.maximum
  pub ordered : Ordered r.minimum r.maximum

pub exact-IsRange : (n : ℕ) (r : NprobesRange) → exact n ≡ ok r → IsRange r
unfolding exact
exact-IsRange n r h = ground arith

pub with_minimum-IsRange :
    (r : NprobesRange) (n : ℕ) (r' : NprobesRange)
    → IsRange r
    → with_minimum r n ≡ ok r'
    → IsRange r'
unfolding with_minimum
with_minimum-IsRange r n r' h e = ground arith

pub with_maximum-IsRange :
    (r : NprobesRange) (n : ℕ) (r' : NprobesRange)
    → IsRange r
    → with_maximum r n ≡ ok r'
    → IsRange r'
unfolding with_maximum
with_maximum-IsRange r n r' h e = ground arith
