-- ===== src/Selection/Pages.antt =====
-- The estimate never misses a page that holds a match, and its work is bounded.
use lance_c.Prelude.{
  subst, ℕ, ◌+◌, ◌*◌, ◌≤◌, Option, none, some, Bool, true, List, [], ◌∷◌, length, any, ◌≡◌, arith,
  inl, inr, Option-cases,
}
use lance_c.Expression.{Expr, query, and, or, not}
use lance_c.Scanner.Limits.{checked_mul}
use lance_c.Selection.{
  Values, Bound, included, excluded, unbounded, SargableQuery, range, is_in, equals, other_query,
  Page, contains, contains_any, above_lower, below_upper, overlaps, overlaps_leaf, matches_page,
  count_pages, as_number, LookupBatch, read_rows, estimate_pages, comparisons_per_page,
  max_lookup_pages, max_estimate_comparisons,
}
use lance_c.Selection.Tally.{tally, tally_most}
use lance_c.Selection.Matches.{
  IsOrdered, on_page, equals_key, after_start, before_end, satisfies, satisfies_leaf, satisfies_all,
}

module _ {v : Values} {le : v.Value → v.Value → Bool} (h : IsOrdered v le) where
  contains_sound :
      (p : Page v) (value key : v.Value) (b : Bool)
      → on_page v le p key ≡ true
      → equals_key v le value key ≡ true
      → contains v p value ≡ some b
      → b ≡ true
  unfolding contains
  contains_sound p value key b on eq found = elim (Option-cases (v.partial_cmp p.least value)) [
    | inl e ↦ ground arith
    | inr (low, e) ↦ elim (Option-cases (v.partial_cmp p.greatest value)) [
      | inl e' ↦ ground arith
      | inr (high, e') ↦ ground (
        arith,
        h.agrees p.least value low e,
        h.agrees p.greatest value high e',
        h.trans p.least key value,
        h.trans value key p.greatest,
      )
    ]
  ]

  contains_any_sound :
      (p : Page v) (values : List v.Value) (key : v.Value) (b : Bool)
      → on_page v le p key ≡ true
      → any (λ value. equals_key v le value key) values ≡ true
      → contains_any v p values ≡ some b
      → b ≡ true
  unfolding contains_any
  contains_any_sound p [] key b on eq found = ground arith
  contains_any_sound p (value ∷ values) key b on eq found =
      elim (Option-cases (contains v p value)) [
        | inl e ↦ ground arith
        | inr (c, e) ↦
            ground (arith, contains_sound p value key c on, contains_any_sound p values key b on)
      ]

  above_sound :
      (p : Page v) (start : Bound v.Value) (key : v.Value) (b : Bool)
      → le key p.greatest ≡ true
      → after_start v le start key ≡ true
      → above_lower v p start ≡ some b
      → b ≡ true
  unfolding above_lower
  above_sound p (included s) key b on sat found = elim (Option-cases (v.partial_cmp p.greatest s)) [
    | inl e ↦ ground arith
    | inr (o, e) ↦ ground (arith, h.agrees p.greatest s o e, h.trans s key p.greatest)
  ]
  above_sound p (excluded s) key b on sat found = elim (Option-cases (v.partial_cmp p.greatest s)) [
    | inl e ↦ ground arith
    | inr (o, e) ↦
        ground
          (arith, h.agrees p.greatest s o e, h.trans s key p.greatest, h.trans key p.greatest s)
  ]
  above_sound p unbounded key b on sat found = ground arith

  below_sound :
      (p : Page v) (end' : Bound v.Value) (key : v.Value) (b : Bool)
      → le p.least key ≡ true
      → before_end v le end' key ≡ true
      → below_upper v p end' ≡ some b
      → b ≡ true
  unfolding below_upper
  below_sound p (included s) key b on sat found = elim (Option-cases (v.partial_cmp p.least s)) [
    | inl e ↦ ground arith
    | inr (o, e) ↦ ground (arith, h.agrees p.least s o e, h.trans p.least key s)
  ]
  below_sound p (excluded s) key b on sat found = elim (Option-cases (v.partial_cmp p.least s)) [
    | inl e ↦ ground arith
    | inr (o, e) ↦
        ground (arith, h.agrees p.least s o e, h.trans p.least key s, h.trans s p.least key)
  ]
  below_sound p unbounded key b on sat found = ground arith

  overlaps_sound :
      (p : Page v) (q : SargableQuery v.Value) (key : v.Value) (b : Bool)
      → on_page v le p key ≡ true
      → satisfies v le q key ≡ true
      → overlaps v p q ≡ some b
      → b ≡ true
  unfolding overlaps
  overlaps_sound p (equals value) key b on sat found = contains_sound p value key b on sat found
  overlaps_sound p SargableQuery.is_null key b on sat found = ground arith
  overlaps_sound p (is_in values) key b on sat found =
      ground (arith, contains_any_sound p values key b on sat)
  overlaps_sound p (range start end') key b on sat found =
      elim (Option-cases (above_lower v p start)) [
        | inl e ↦ ground arith
        | inr (above, e) ↦ elim (Option-cases (below_upper v p end')) [
          | inl e' ↦ ground arith
          | inr (below, e') ↦
              ground (arith, above_sound p start key above, below_sound p end' key below)
        ]
      ]
  overlaps_sound p other_query key b on sat found = ground arith

  -- A page for which the estimate has an answer and the answer is no holds no match.
  matches_page_sound :
      (e : Expr (Option (SargableQuery v.Value))) (p : Page v) (key : v.Value) (b : Bool)
      → on_page v le p key ≡ true
      → satisfies_all v le e key ≡ true
      → matches_page v e p ≡ some b
      → b ≡ true
  unfolding matches_page satisfies_all
  matches_page_sound (query leaf) p key b on sat found = leaf_sound leaf.query sat found
    where
      leaf_sound :
          (q : Option (SargableQuery v.Value))
          → satisfies_leaf v le q key ≡ true
          → overlaps_leaf v p q ≡ some b
          → b ≡ true
      leaf_sound none s f = ground arith
      leaf_sound (some q) s f = overlaps_sound p q key b on s f
  matches_page_sound (and a c) p key b on sat found = elim (Option-cases (matches_page v a p)) [
    | inl e ↦ ground arith
    | inr (l, e) ↦ ground (arith, matches_page_sound a p key l on, matches_page_sound c p key b on)
  ]
  matches_page_sound (or a c) p key b on sat found = elim (Option-cases (matches_page v a p)) [
    | inl e ↦ ground arith
    | inr (l, e) ↦ ground (arith, matches_page_sound a p key l on, matches_page_sound c p key b on)
  ]
  matches_page_sound (not a) p key b on sat found = ground arith

module _ (v : Values) (le : v.Value → v.Value → Bool) where
  -- an index as it is stored: each page with the keys that are on it
  abbrev pub Stored : Type 0
  Stored = List (Page v × List v.Value)

  abbrev pub lookup_of : Stored → List (Page v)
  lookup_of [] = []
  lookup_of ((p, keys) ∷ rest) = p ∷ lookup_of rest

  abbrev pub AllOn : Page v → List v.Value → Type 0
  AllOn p [] = Unit
  AllOn p (key ∷ keys) = (on_page v le p key ≡ true) × AllOn p keys

  abbrev pub IsStored : Stored → Type 0
  IsStored [] = Unit
  IsStored ((p, keys) ∷ rest) = AllOn p keys × IsStored rest

  -- how many pages hold a match
  abbrev pub matching : Expr (Option (SargableQuery v.Value)) → Stored → ℕ
  matching e [] = 0
  matching e ((p, keys) ∷ rest) = as_number v (any (satisfies_all v le e) keys) + matching e rest

module _ {v : Values} {le : v.Value → v.Value → Bool} (h : IsOrdered v le) where
  page_counts :
      (e : Expr (Option (SargableQuery v.Value))) (p : Page v) (keys : List v.Value) (b : Bool)
      → AllOn v le p keys
      → matches_page v e p ≡ some b
      → as_number v (any (satisfies_all v le e) keys) ≤ as_number v b
  page_counts e p [] b on found = ground arith
  page_counts e p (key ∷ keys) b on found =
      ground (arith, page_counts e p keys b on.1 found, matches_page_sound h e p key b on.0)

  count_pages_lem :
      (e : Expr (Option (SargableQuery v.Value))) (index : Stored v le) (n : ℕ)
      → IsStored v le index
      → count_pages v e (lookup_of v le index) ≡ some n
      → (matching v le e index ≤ n) × (n ≤ length (lookup_of v le index))
  unfolding count_pages
  count_pages_lem e [] n on found = ground arith
  count_pages_lem e ((p, keys) ∷ rest) n on found = elim (Option-cases (matches_page v e p)) [
    | inl m ↦ ground arith
    | inr (b, m) ↦ elim (Option-cases (count_pages v e (lookup_of v le rest))) [
      | inl r ↦ ground arith
      | inr (k, r) ↦ ground (arith, page_counts e p keys b on.0 m, count_pages_lem e rest k on.1 r)
    ]
  ]

  read_rows-length :
      (rows : List (Option (Page v))) {ps : List (Page v)}
      → read_rows v rows ≡ some ps
      → length rows ≡ length ps
  read_rows-length [] h = ground (arith, h)
  read_rows-length (none ∷ rows) h = cc
  read_rows-length (some p ∷ rows) h = elim (Option-cases (read_rows v rows)) [
    | inl e ↦ ground (arith, e, h)
    | inr (ps, e) ↦ ground (arith, e, h, read_rows-length rows e)
  ]

  few :
      (e : Expr (Option (SargableQuery v.Value))) (ps : List (Page v)) (each work : ℕ)
      → comparisons_per_page e ≡ some each
      → checked_mul (length ps) each ≡ some work
      → work ≤ max_estimate_comparisons
      → tally v e ps ≤ 2 * max_estimate_comparisons
  unfolding checked_mul
  few e ps each work c w h = ground (arith, tally_most v e ps each c, w, h)

  -- Where values compare as a partial order, the rows of the lookup are the pages of an index, and an
  -- estimate is given, the pages that hold a match are at most as many, and it is at most the number of
  -- pages; at most 65536 pages were looked at, and at most two million comparisons of values made, two
  -- for each of the million that the limit counts.
  pub estimate_pages_lem :
      (e : Expr (Option (SargableQuery v.Value))) (batch : LookupBatch v) (index : Stored v le)
      (n : ℕ)
      → IsStored v le index
      → read_rows v batch.rows ≡ some (lookup_of v le index)
      → estimate_pages v batch e ≡ some n
      → (matching v le e index ≤ n)
        × (n ≤ length (lookup_of v le index))
        × (length (lookup_of v le index) ≤ max_lookup_pages)
        × (tally v e (lookup_of v le index) ≤ 2 * max_estimate_comparisons)
  unfolding estimate_pages
  estimate_pages_lem e batch index n on rows found =
      let same = read_rows-length batch.rows rows in
      elim (Option-cases (comparisons_per_page e)) [
        | inl c ↦ ground arith
        | inr (each, c) ↦ elim (Option-cases (checked_mul (length batch.rows) each)) [
          | inl w ↦ ground arith
          | inr (work, w) ↦ elim (Option-cases (count_pages v e (lookup_of v le index))) [
            | inl k ↦ ground arith
            | inr (k, counted) ↦
                let c' = count_pages_lem e index k on counted in
                (
                  ground arith,
                  ground arith,
                  ground arith,
                  few e (lookup_of v le index) each work c
                      (subst (λ m. checked_mul m each ≡ some work) same w) (ground arith),
                )
          ]
        ]
      ]
