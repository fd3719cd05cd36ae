-- ===== src/Scanner/Limits.antt =====
-- The size limits of batch queries, with the overflow checks of `usize` (64 bits).
use lance_c.Prelude.{
  ℕ, ◌*◌, ◌^◌, ◌≤◌, ◌<◌, Option, none, some, Bool, false, Result, ok, ◌>>=◌, ◌>>◌, guard, ok_or,
  not, ◌&&◌, ◌≡◌, ◌==◌, ltb, leb, if◌then◌else◌, arith, ◌↔◌,
}
use native.Mathlib.Nat.{le-mul_of_pos_right}
use lance_c.Ffi.LastError.{LanceError}
use lance_c.Scanner.Config.{invalid}

abbrev pub usize_mod : ℕ
usize_mod = 2 ^ 64

abbrev pub max_batch_queries : ℕ
max_batch_queries = 128

abbrev pub max_batch_query_bytes : ℕ
max_batch_query_bytes = 67108864

abbrev pub max_batch_candidates : ℕ
max_batch_candidates = 100000

-- `usize::checked_mul`
unfoldable pub checked_mul : ℕ → ℕ → Option ℕ
checked_mul a b = let p = a * b in if ltb p usize_mod then some p else none

unfoldable pub batch_query_value_count : ℕ → ℕ → ℕ → Result LanceError ℕ
unfolding checked_mul
batch_query_value_count dimension num_queries width = do
  count ←
      ok_or (checked_mul dimension num_queries) (invalid "batch query byte size overflows usize")
  bytes ← ok_or (checked_mul count width) (invalid "batch query byte size overflows usize")
  guard (not (ltb max_batch_query_bytes bytes)) (invalid "batch query byte size exceeds limit")
  ok count

abbrev pub or_one : Option ℕ → ℕ
or_one none = 1
or_one (some n) = n

abbrev pub within_candidates : Option ℕ → Bool
within_candidates none = false
within_candidates (some n) = leb n max_batch_candidates

abbrev pub then_mul : Option ℕ → ℕ → Option ℕ
then_mul none b = none
then_mul (some a) b = checked_mul a b

unfoldable pub validate_batch_candidates : ℕ → ℕ → Option ℕ → Result LanceError (Unit {0})
unfolding checked_mul
validate_batch_candidates num_queries k refine_factor =
    let refine = or_one refine_factor in
    guard (not (refine == 0) && within_candidates (then_mul (checked_mul num_queries k) refine))
      (invalid "batch num_queries * k * refine_factor must be in 1..=100000")

-- The overflow tests refuse no product that the limit allows: the element count is returned exactly
-- when the matrix, as it would be without wrap-around, has at most 64 MiB.
batch_query_value_count_lem :
    (dimension num_queries width count : ℕ)
    → 0 < width
    → (batch_query_value_count dimension num_queries width ≡ ok count) ↔ (
        (count ≡ dimension * num_queries)
        × (dimension * num_queries * width ≤ max_batch_query_bytes))
unfolding batch_query_value_count checked_mul
batch_query_value_count_lem dimension num_queries width count w =
    let grows : dimension * num_queries ≤ dimension * num_queries * width =
      le-mul_of_pos_right (dimension * num_queries) w in
    (λ h. ground arith, λ h. ground arith)

-- Candidates are accepted exactly when the refine factor is positive and the three-fold product, as
-- it would be without wrap-around, is at most 100000.
validate_batch_candidates_lem :
    (num_queries k : ℕ) (refine_factor : Option ℕ)
    → (validate_batch_candidates num_queries k refine_factor ≡ ok tt) ↔ (
        (0 < or_one refine_factor)
        × (num_queries * k * or_one refine_factor ≤ max_batch_candidates))
unfolding validate_batch_candidates checked_mul
validate_batch_candidates_lem num_queries k none = (λ h. ground arith, λ h. ground arith)
validate_batch_candidates_lem num_queries k (some r) =
    let grows : 0 < r → num_queries * k ≤ num_queries * k * r =
      λ w. le-mul_of_pos_right (num_queries * k) w in
    (λ h. ground arith, λ h. let g = grows (h.0) in ground arith)
