-- ===== src/Selection/Matches.antt =====
-- What the search of an index returns: when a key is on a page, and when it satisfies a query.
use lance_c.Prelude.{
  Option, none, some, Bool, true, false, not as bool_not, ◌&&◌, ◌||◌, any, ltb, if◌then◌else◌, ◌≡◌,
}
use lance_c.Expression.{Expr, query, and, or, not}
use lance_c.Selection.{
  Ordering, Values, Bound, included, excluded, unbounded, SargableQuery, range, is_in, equals,
  other_query, is_greater, is_less, Page,
}

-- `partial_cmp` is a partial order: where two values are comparable, it agrees with a relation that
-- is transitive.
pub record IsOrdered (v : Values) (le : v.Value → v.Value → Bool) : Type 0 where
  pub trans : (a b c : v.Value) → le a b ≡ true → le b c ≡ true → le a c ≡ true
  pub agrees :
      (a b : v.Value) (o : Ordering)
      → v.partial_cmp a b ≡ some o
      → (is_greater o ≡ bool_not (le a b)) × (is_less o ≡ bool_not (le b a))

module _ (v : Values) (le : v.Value → v.Value → Bool) where
  -- a key is on a page: NULL keys are counted, and the others are between its bounds
  abbrev pub on_page : Page v → v.Value → Bool
  on_page p key =
      if v.is_null key
      then ltb 0 p.nulls
      else bool_not (v.is_null p.least)
        && bool_not (v.is_null p.greatest)
        && le p.least key
        && le key p.greatest

  abbrev pub equals_key : v.Value → v.Value → Bool
  equals_key value key =
      if v.is_null value
      then v.is_null key
      else bool_not (v.is_null key) && le value key && le key value

  abbrev pub after_start : Bound v.Value → v.Value → Bool
  after_start (included b) key = le b key
  after_start (excluded b) key = le b key && bool_not (le key b)
  after_start unbounded key = true

  abbrev pub before_end : Bound v.Value → v.Value → Bool
  before_end (included b) key = le key b
  before_end (excluded b) key = le key b && bool_not (le b key)
  before_end unbounded key = true

  -- whether the index's search returns a key
  abbrev pub satisfies : SargableQuery v.Value → v.Value → Bool
  satisfies (equals value) key = equals_key value key
  satisfies SargableQuery.is_null key = v.is_null key
  satisfies (is_in values) key = any (λ value. equals_key value key) values
  satisfies (range start end) key =
      bool_not (v.is_null key) && after_start start key && before_end end key
  satisfies other_query key = false

  abbrev pub satisfies_leaf : Option (SargableQuery v.Value) → v.Value → Bool
  satisfies_leaf none key = false
  satisfies_leaf (some q) key = satisfies q key

  unfoldable pub satisfies_all : Expr (Option (SargableQuery v.Value)) → v.Value → Bool
  satisfies_all (query leaf) key = satisfies_leaf leaf.query key
  satisfies_all (and a b) key = satisfies_all a key && satisfies_all b key
  satisfies_all (or a b) key = satisfies_all a key || satisfies_all b key
  satisfies_all (not a) key = bool_not (satisfies_all a key)
