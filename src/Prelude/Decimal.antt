-- ===== src/Prelude/Decimal.antt =====
-- Numbers as decimal text: Rust's `to_string` and `parse` on unsigned and signed integers.
use Prim.Native.Nat.{ℕ, zero, suc, ◌+◌, ◌-◌, ◌*◌, ◌/◌, ◌%◌, ◌^◌, ◌≤◌, ◌<◌}
use mathlib.Core.Path.{◌≡◌, refl, ◌∙◌, ap}
use mathlib.Core.Logic.{inl, inr}
use mathlib.Core.Bool.{Bool, ◌&&◌}
use mathlib.Core.Option.{Option, none, some}
use mathlib.Core.List.{[], ◌∷◌, ◌++◌}
use native.Mathlib.Nat.{pow-suc}
use native.Mathlib.Omega.{arith}
use lance_c.Prelude.Tests.{ltb, leb, ◌==◌, if◌then◌else◌, if_true, if_false, Bool-cases}
use lance_c.Prelude.Texts.{Text}
use lance_c.Prelude.Ints.{ℤ, pos, negsuc}

abbrev digits : ℕ → ℕ → Text
digits zero n = []
digits (suc fuel) n =
    let front = digits fuel (n / 10) in
    if ltb n 10 then (48 + n) ∷ [] else front ++ (48 + n % 10) ∷ []

-- `to_string` of a number below 10 ^ 20, as every 64-bit number is
unfoldable pub to_string : ℕ → Text
to_string n = digits 20 n

abbrev is_digit : ℕ → Bool
is_digit c = leb 48 c && leb c 57

-- the digits after `acc`, with the check for overflow at each
abbrev parse_digits : ℕ → ℕ → Text → Option ℕ
parse_digits bound acc [] = some acc
parse_digits bound acc (c ∷ cs) =
    let next = acc * 10 + (c - 48) in
    let rest = parse_digits bound next cs in if is_digit c && ltb next bound then rest else none

abbrev parse_number : ℕ → Text → Option ℕ
parse_number bound [] = none
parse_number bound (c ∷ cs) = parse_digits bound 0 (c ∷ cs)

-- `parse::<uN>` for numbers below `bound`; a plus sign may come first
unfoldable pub parse_unsigned : ℕ → Text → Option ℕ
parse_unsigned bound [] = none
parse_unsigned bound (c ∷ cs) =
    if c == 43 then parse_number bound cs else parse_number bound (c ∷ cs)

abbrev minus : ℕ → ℤ
minus zero = pos zero
minus (suc n) = negsuc n

abbrev map_minus : Option ℕ → Option ℤ
map_minus none = none
map_minus (some n) = some (minus n)

abbrev map_pos : Option ℕ → Option ℤ
map_pos none = none
map_pos (some n) = some (pos n)

-- `parse::<i32>`
unfoldable pub parse_i32 : Text → Option ℤ
unfolding parse_unsigned
parse_i32 [] = none
parse_i32 (c ∷ cs) =
    if c == 45
    then map_minus (parse_number (2 ^ 31 + 1) cs)
    else map_pos (parse_unsigned (2 ^ 31) (c ∷ cs))

abbrev followed : ℕ → Option ℕ → ℕ → Option ℕ
followed bound none d = none
followed bound (some acc) d = if ltb (acc * 10 + d) bound then some (acc * 10 + d) else none

parse_digits-snoc :
    (bound acc : ℕ) (s : Text) (d : ℕ)
    → d < 10
    → parse_digits bound acc (s ++ (48 + d) ∷ []) ≡ followed bound (parse_digits bound acc s) d
parse_digits-snoc bound acc [] d h = ground (arith, h)
parse_digits-snoc bound acc (c ∷ s) d h =
    ground (arith, parse_digits-snoc bound (acc * 10 + (c - 48)) s d h)

parse_digits-digits :
    (fuel bound n : ℕ) → n < 10 ^ fuel → n < bound → parse_digits bound 0 (digits fuel n) ≡ some n
parse_digits-digits zero bound n h k = ap some (omega (arith, h))
parse_digits-digits (suc fuel) bound n h k = elim (Bool-cases (ltb n 10)) [
  | inl e ↦ ground (arith, e, k)
  | inr e ↦
      let p : n / 10 < 10 ^ fuel = omega (arith, h, pow-suc 10 fuel) in
      let q : n / 10 < bound = omega (arith, k) in
      let r = parse_digits-snoc bound 0 (digits fuel (n / 10)) (n % 10) (omega arith) in
      rw (e, r, parse_digits-digits fuel bound (n / 10) p q) (ground (arith, k))
]

record Printed (s : Text) : Type 0 where
  first : ℕ
  rest : Text
  all : s ≡ first ∷ rest
  digit : 47 < first

first_digit : (fuel n : ℕ) → Printed (digits (suc fuel) n)
first_digit zero n = elim (Bool-cases (ltb n 10)) [
  | inl e ↦ record { first = 48 + n; rest = []; all = rw e refl; digit = omega arith }
  | inr e ↦ record { first = 48 + n % 10; rest = []; all = rw e refl; digit = omega arith }
]
first_digit (suc fuel) n =
    let p = first_digit fuel (n / 10) in
    elim (Bool-cases (ltb n 10)) [
      | inl e ↦ record { first = 48 + n; rest = []; all = if_true _ _ e; digit = omega arith }
      | inr e ↦ record {
        first = p.first;
        rest = p.rest ++ (48 + n % 10) ∷ [];
        all = if_false _ _ e ∙ ap (λ s. s ++ (48 + n % 10) ∷ []) p.all;
        digit = p.digit;
      }
    ]

-- a text that begins with a digit has no sign
no_sign :
    (bound : ℕ) (s : Text)
    → Printed s
    → (parse_unsigned bound s ≡ parse_digits bound 0 s)
      × (parse_i32 s ≡ map_pos (parse_digits (2 ^ 31) 0 s))
unfolding parse_unsigned parse_i32
no_sign bound s p = rw (p.all) (ground (arith, p.digit), ground (arith, p.digit))

unsigned_digits :
    (fuel bound n : ℕ)
    → n < 10 ^ suc fuel
    → n < bound
    → parse_unsigned bound (digits (suc fuel) n) ≡ some n
unsigned_digits fuel bound n h k =
    (no_sign bound (digits (suc fuel) n) (first_digit fuel n)).0
    ∙ parse_digits-digits (suc fuel) bound n h k

signed_digits :
    (fuel n : ℕ) → n < 10 ^ suc fuel → n < 2 ^ 31 → parse_i32 (digits (suc fuel) n) ≡ some (pos n)
signed_digits fuel n h k =
    (no_sign 0 (digits (suc fuel) n) (first_digit fuel n)).1
    ∙ ap map_pos (parse_digits-digits (suc fuel) (2 ^ 31) n h k)

-- What is printed is read back, by every width that holds it.
pub parse_unsigned-to_string :
    (bound n : ℕ) → bound ≤ 2 ^ 64 → n < bound → parse_unsigned bound (to_string n) ≡ some n
unfolding to_string
parse_unsigned-to_string bound n h k = unsigned_digits 19 bound n (omega (arith, h, k)) k

pub parse_i32-to_string : (n : ℕ) → n < 2 ^ 31 → parse_i32 (to_string n) ≡ some (pos n)
unfolding to_string
parse_i32-to_string n k = signed_digits 19 n (omega (arith, k)) k
