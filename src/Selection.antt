-- ===== src/Selection.antt =====
-- The estimate of how many pages of a BTree index a search reads (src/scalar_index_selection.rs).
-- `ScalarValue` and `SargableQuery` are types of other libraries: values are a parameter, and the
-- queries are the forms that the source matches on.
pub mod Matches
pub mod Tally
pub mod Pages
pub mod Probe
pub mod Choose
mod Examples
use lance_c.Prelude.{
  ℕ, ◌+◌, ◌*◌, Option, none, some, Bool, true, false, not as bool_not, ◌&&◌, ◌||◌, List, [], ◌∷◌,
  length, ◌==◌, ltb, leb, if◌then◌else◌, max,
}
use lance_c.Expression.{Search, Expr, query, and, or, not}
use lance_c.Scanner.Limits.{checked_mul, usize_mod}

pub data Ordering : Type 0 where
  less equal greater : Ordering

-- `ScalarValue::is_null` and `ScalarValue::partial_cmp`
pub record Values : Type 1 where
  pub Value : Type 0
  pub is_null : Value → Bool
  pub partial_cmp : Value → Value → Option Ordering

pub data Bound (V : Type 0) : Type 0 where
  included : V → Bound V
  excluded : V → Bound V
  unbounded : Bound V

pub data SargableQuery (V : Type 0) : Type 0 where
  range : Bound V → Bound V → SargableQuery V
  is_in : List V → SargableQuery V
  equals : V → SargableQuery V
  is_null : SargableQuery V
  other_query : SargableQuery V

abbrev pub max_in_values : ℕ
max_in_values = 256

abbrev pub max_lookup_pages : ℕ
max_lookup_pages = 65536

abbrev pub max_estimate_comparisons : ℕ
max_estimate_comparisons = 1000000

abbrev pub is_greater : Ordering → Bool
is_greater greater = true
is_greater _ = false

abbrev pub is_less : Ordering → Bool
is_less less = true
is_less _ = false

infixl 5 ◌>>=◌
abbrev pub ◌>>=◌ : {A B : Type 0} → Option A → (A → Option B) → Option B
none >>= f = none
some a >>= f = f a

-- one row of the lookup: a page's least and greatest key, and how many of its keys are NULL
pub record Page (v : Values) : Type 0 where
  pub least : v.Value
  pub greatest : v.Value
  pub nulls : ℕ

-- The batch of the lookup: how many columns it has, whether the third is an array of `u32`, and its
-- rows, of which one with a key that cannot be read is `none`.
pub record LookupBatch (v : Values) : Type 0 where
  pub num_columns : ℕ
  pub null_counts : Bool
  pub rows : List (Option (Page v))

module _ (v : Values) where
  -- the closure `contains` of `overlaps`
  unfoldable pub contains : Page v → v.Value → Option Bool
  contains p value =
      if v.is_null value
      then some (ltb 0 p.nulls)
      else (if v.is_null p.least || v.is_null p.greatest then some false else (do
        low ← v.partial_cmp p.least value
        high ← v.partial_cmp p.greatest value
        some (bool_not (is_greater low) && bool_not (is_less high))))

  unfoldable pub contains_any : Page v → List v.Value → Option Bool
  unfolding contains
  contains_any p [] = some false
  contains_any p (value ∷ values) = do
    let rest = contains_any p values
    found ← contains p value
    if found then some true else rest

  -- the two arms of `SargableQuery::Range`
  unfoldable pub above_lower : Page v → Bound v.Value → Option Bool
  above_lower p (included b) =
      if v.is_null b then none else (do c ← v.partial_cmp p.greatest b; some (bool_not (is_less c)))
  above_lower p (excluded b) =
      if v.is_null b then none else (do c ← v.partial_cmp p.greatest b; some (is_greater c))
  above_lower p unbounded = some true

  unfoldable pub below_upper : Page v → Bound v.Value → Option Bool
  below_upper p (included b) =
      if v.is_null b then none else (do c ← v.partial_cmp p.least b; some (bool_not (is_greater c)))
  below_upper p (excluded b) =
      if v.is_null b then none else (do c ← v.partial_cmp p.least b; some (is_less c))
  below_upper p unbounded = some true

  unfoldable pub overlaps : Page v → SargableQuery v.Value → Option Bool
  unfolding contains contains_any above_lower below_upper
  overlaps p (equals value) = contains p value
  overlaps p SargableQuery.is_null = some (ltb 0 p.nulls)
  overlaps p (is_in values) =
      if leb (length values) max_in_values then contains_any p values else none
  overlaps p (range start end) =
      if v.is_null p.least || v.is_null p.greatest
      then some false
      else (do above ← above_lower p start; below ← below_upper p end; some (above && below))
  overlaps p other_query = none

  -- a leaf whose query is of another kind is `none`: the downcast fails
  abbrev pub overlaps_leaf : Page v → Option (SargableQuery v.Value) → Option Bool
  overlaps_leaf p none = none
  overlaps_leaf p (some q) = overlaps p q

  unfoldable pub matches_page : Expr (Option (SargableQuery v.Value)) → Page v → Option Bool
  unfolding overlaps
  matches_page (query leaf) p = overlaps_leaf p leaf.query
  matches_page (and a b) p = do
    let right = matches_page b p
    left ← matches_page a p
    if left then right else some false
  matches_page (or a b) p = do
    let right = matches_page b p
    left ← matches_page a p
    if left then some true else right
  matches_page (not a) p = none

-- `usize::checked_add`
abbrev pub checked_add : ℕ → ℕ → Option ℕ
checked_add a b = if ltb (a + b) usize_mod then some (a + b) else none

module _ {V : Type 0} where
  abbrev pub comparisons_of : Option (SargableQuery V) → Option ℕ
  comparisons_of (some (is_in values)) =
      if leb (length values) max_in_values then some (max (length values) 1) else none
  comparisons_of (some (equals value)) = some 1
  comparisons_of (some (range start end)) = some 1
  comparisons_of (some SargableQuery.is_null) = some 1
  comparisons_of _ = none

  unfoldable pub comparisons_per_page : Expr (Option (SargableQuery V)) → Option ℕ
  comparisons_per_page (query leaf) = comparisons_of leaf.query
  comparisons_per_page (and a b) = do
    let right = comparisons_per_page b
    m ← comparisons_per_page a
    n ← right
    checked_add m n
  comparisons_per_page (or a b) = do
    let right = comparisons_per_page b
    m ← comparisons_per_page a
    n ← right
    checked_add m n
  comparisons_per_page (not a) = none

module _ (v : Values) where
  abbrev pub as_number : Bool → ℕ
  as_number true = 1
  as_number false = 0

  -- the loop of `estimate_pages`
  unfoldable pub count_pages : Expr (Option (SargableQuery v.Value)) → List (Page v) → Option ℕ
  unfolding matches_page
  count_pages e [] = some 0
  count_pages e (p ∷ ps) = do
    let rest = count_pages e ps
    m ← matches_page v e p
    n ← rest
    some (as_number m + n)

  abbrev pub read_rows : List (Option (Page v)) → Option (List (Page v))
  read_rows [] = some []
  read_rows (none ∷ rows) = none
  read_rows (some p ∷ rows) = do pages ← read_rows rows; some (p ∷ pages)

  unfoldable pub estimate_pages : LookupBatch v → Expr (Option (SargableQuery v.Value)) → Option ℕ
  unfolding comparisons_per_page count_pages checked_mul
  estimate_pages b e =
      if ltb b.num_columns 3 || ltb max_lookup_pages (length b.rows) then none else (do
        each ← comparisons_per_page e
        work ← checked_mul (length b.rows) each
        let counted = (do pages ← read_rows b.rows; count_pages e pages)
        if ltb max_estimate_comparisons work then none else if b.null_counts then counted else none)
