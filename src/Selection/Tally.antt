-- ===== src/Selection/Tally.antt =====
-- How many values `estimate_pages` compares: each call of `ScalarValue::partial_cmp` counts, along the
-- same branches and early returns as `matches_page` takes.
use lance_c.Prelude.{
  ℕ, suc, ◌+◌, ◌*◌, ◌≤◌, Option, none, some, Bool, true, false, List, [], ◌∷◌, length, leb, ◌||◌,
  if◌then◌else◌, ◌≡◌, arith, inl, inr, Option-cases,
}
use lance_c.Expression.{Expr, query, and, or, not}
use lance_c.Selection.{
  Values, Bound, included, excluded, unbounded, SargableQuery, range, is_in, equals, other_query,
  Page, contains, above_lower, matches_page, comparisons_of, comparisons_per_page, max_in_values,
}

-- one comparison, and more if it has a result
abbrev pub then_more : {A : Type 0} → Option A → ℕ → ℕ
then_more none more = 1
then_more (some a) more = suc more

abbrev pub if_found : Option Bool → ℕ → ℕ → ℕ
if_found none found missed = 0
if_found (some true) found missed = found
if_found (some false) found missed = missed

module _ (v : Values) where
  -- comparisons made for one value of `equals` or `is_in` on one page
  abbrev pub contains_tally : Page v → v.Value → ℕ
  contains_tally p value =
      if v.is_null value || v.is_null p.least || v.is_null p.greatest
      then 0
      else then_more (v.partial_cmp p.least value) 1

  -- the values after one that is found, or cannot be compared, are not looked at
  abbrev pub contains_any_tally : Page v → List v.Value → ℕ
  contains_any_tally p [] = 0
  contains_any_tally p (value ∷ values) =
      let rest = contains_any_tally p values in
      contains_tally p value + if_found (contains v p value) 0 rest

  abbrev pub bound_tally : Bound v.Value → ℕ
  bound_tally (included b) = if v.is_null b then 0 else 1
  bound_tally (excluded b) = if v.is_null b then 0 else 1
  bound_tally unbounded = 0

  abbrev pub after_lower : Option Bool → ℕ → ℕ
  after_lower none more = 0
  after_lower (some above) more = more

  abbrev pub overlaps_tally : Page v → SargableQuery v.Value → ℕ
  overlaps_tally p (equals value) = contains_tally p value
  overlaps_tally p SargableQuery.is_null = 0
  overlaps_tally p (is_in values) =
      if leb (length values) max_in_values then contains_any_tally p values else 0
  overlaps_tally p (range start end) =
      if v.is_null p.least || v.is_null p.greatest
      then 0
      else bound_tally start + after_lower (above_lower v p start) (bound_tally end)
  overlaps_tally p other_query = 0

  abbrev pub leaf_tally : Page v → Option (SargableQuery v.Value) → ℕ
  leaf_tally p none = 0
  leaf_tally p (some q) = overlaps_tally p q

  -- the right side is looked at only if the left one does not settle the matter
  abbrev pub page_tally : Expr (Option (SargableQuery v.Value)) → Page v → ℕ
  page_tally (query leaf) p = leaf_tally p leaf.query
  page_tally (and a b) p =
      let right = page_tally b p in page_tally a p + if_found (matches_page v a p) right 0
  page_tally (or a b) p =
      let right = page_tally b p in page_tally a p + if_found (matches_page v a p) 0 right
  page_tally (not a) p = 0

  abbrev pub tally : Expr (Option (SargableQuery v.Value)) → List (Page v) → ℕ
  tally e [] = 0
  tally e (p ∷ ps) = page_tally e p + tally e ps

  contains_tally_most : (p : Page v) (value : v.Value) → contains_tally p value ≤ 2
  contains_tally_most p value = elim (Option-cases (v.partial_cmp p.least value)) [
    | inl e ↦ ground (arith, e)
    | inr (o, e) ↦ ground (arith, e)
  ]

  if_found_most :
      (o : Option Bool) (found missed n : ℕ) → found ≤ n → missed ≤ n → if_found o found missed ≤ n
  if_found_most none found missed n h k = ground arith
  if_found_most (some true) found missed n h k = h
  if_found_most (some false) found missed n h k = k

  any_tally_most :
      (p : Page v) (values : List v.Value) → contains_any_tally p values ≤ 2 * length values
  any_tally_most p [] = ground arith
  any_tally_most p (value ∷ values) =
      let rest = any_tally_most p values in
      omega (
        arith,
        contains_tally_most p value,
        if_found_most (contains v p value) 0 (contains_any_tally p values) (2 * length values)
            (omega arith) rest,
      )

  bound_tally_most : (b : Bound v.Value) → bound_tally b ≤ 1
  bound_tally_most (included b) = ground arith
  bound_tally_most (excluded b) = ground arith
  bound_tally_most unbounded = ground arith

  after_lower_most : (o : Option Bool) (n : ℕ) → after_lower o n ≤ n
  after_lower_most none n = ground arith
  after_lower_most (some a) n = omega arith

  leaf_tally_most :
      (p : Page v) (q : Option (SargableQuery v.Value)) (each : ℕ)
      → comparisons_of q ≡ some each
      → leaf_tally p q ≤ 2 * each
  leaf_tally_most p none each h = cc
  leaf_tally_most p (some other_query) each h = cc
  leaf_tally_most p (some SargableQuery.is_null) each h = ground arith
  leaf_tally_most p (some (equals value)) each h = ground (arith, h, contains_tally_most p value)
  leaf_tally_most p (some (is_in values)) each h = ground (arith, h, any_tally_most p values)
  leaf_tally_most p (some (range start end)) each h = ground (
    arith,
    h,
    bound_tally_most start,
    bound_tally_most end,
    after_lower_most (above_lower v p start) (bound_tally end),
  )

  page_tally_most :
      (e : Expr (Option (SargableQuery v.Value))) (p : Page v) (each : ℕ)
      → comparisons_per_page e ≡ some each
      → page_tally e p ≤ 2 * each
  unfolding comparisons_per_page
  page_tally_most (query leaf) p each h = leaf_tally_most p leaf.query each h
  page_tally_most (not a) p each h = cc
  page_tally_most (and a b) p each h = elim (Option-cases (comparisons_per_page a)) [
    | inl e ↦ ground arith
    | inr (m, e) ↦ elim (Option-cases (comparisons_per_page b)) [
      | inl f ↦ ground arith
      | inr (n, f) ↦
          let k = page_tally_most a p m e in
          let l = page_tally_most b p n f in
          let j = if_found_most (matches_page v a p) (page_tally b p) 0 (2 * n) l (omega arith) in
          ground (arith, k, j)
    ]
  ]
  page_tally_most (or a b) p each h = elim (Option-cases (comparisons_per_page a)) [
    | inl e ↦ ground arith
    | inr (m, e) ↦ elim (Option-cases (comparisons_per_page b)) [
      | inl f ↦ ground arith
      | inr (n, f) ↦
          let k = page_tally_most a p m e in
          let l = page_tally_most b p n f in
          let j = if_found_most (matches_page v a p) 0 (page_tally b p) (2 * n) (omega arith) l in
          ground (arith, k, j)
    ]
  ]

  -- On each page at most twice as many as the estimate counts.
  pub tally_most :
      (e : Expr (Option (SargableQuery v.Value))) (ps : List (Page v)) (each : ℕ)
      → comparisons_per_page e ≡ some each
      → tally e ps ≤ 2 * (length ps * each)
  tally_most e [] each h = ground arith
  tally_most e (p ∷ ps) each h =
      twice _ _ (length ps) each (page_tally_most e p each h) (tally_most e ps each h)
    where
      twice : (a b n k : ℕ) → a ≤ 2 * k → b ≤ 2 * (n * k) → a + b ≤ 2 * (suc n * k)
      twice a b n k h l = ground (arith, h, l)
