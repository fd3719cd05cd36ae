-- ===== src/Selection/Examples.antt =====
-- Two pages of an index over numbers with NULLs, where one page holds a match.
use lance_c.Prelude.{
  ℕ, ◌*◌, ◌≤◌, Option, none, some, Bool, true, false, not as bool_not, List, [], ◌∷◌, length, leb,
  ltb, ◌≡◌, refl, arith, if◌then◌else◌,
}
use lance_c.Expression.{Search, Expr, query, and}
use lance_c.Selection.{
  Ordering, less, equal, greater, Values, SargableQuery, range, is_in, included, excluded, Page,
  is_greater, is_less, LookupBatch, estimate_pages, max_lookup_pages, max_estimate_comparisons,
}
use lance_c.Selection.Tally.{tally}
use lance_c.Selection.Matches.{IsOrdered}
use lance_c.Selection.Pages.{matching, lookup_of, estimate_pages_lem}

abbrev compare_numbers : ℕ → ℕ → Ordering
compare_numbers a b = if ltb a b then less else (if ltb b a then greater else equal)

abbrev ordering : Option ℕ → Option ℕ → Option Ordering
ordering (some a) (some b) = some (compare_numbers a b)
ordering _ _ = none

abbrev numbers : Values
numbers = record { Value = Option ℕ; is_null = null; partial_cmp = ordering }
  where
    null : Option ℕ → Bool
    null none = true
    null (some n) = false

abbrev at_most : Option ℕ → Option ℕ → Bool
at_most (some a) (some b) = leb a b
at_most _ _ = false

numbers-IsOrdered : IsOrdered numbers at_most
numbers-IsOrdered = record { trans = transitive; agrees = agreeing }
  where
    transitive : (a b c : Option ℕ) → at_most a b ≡ true → at_most b c ≡ true → at_most a c ≡ true
    transitive a b c p q = ground arith

    agreeing :
        (a b : Option ℕ) (o : Ordering)
        → ordering a b ≡ some o
        → (is_greater o ≡ bool_not (at_most a b)) × (is_less o ≡ bool_not (at_most b a))
    agreeing a b o e = ground arith

abbrev leaf : SargableQuery (Option ℕ) → Search (Option (SargableQuery (Option ℕ)))
leaf q = record { column = "age"; index_name = "age_idx"; index_type = "BTree"; query = some q }

-- between 5 and 20, and one of 7 and 30
abbrev search_for : Expr (Option (SargableQuery (Option ℕ)))
search_for =
    and (query (leaf (range (included (some 5)) (excluded (some 20)))))
      (query (leaf (is_in (some 7 ∷ some 30 ∷ []))))

abbrev index : List (Page numbers × List (Option ℕ))
index =
    (record { least = some 1; greatest = some 9; nulls = 1 }, some 1 ∷ none ∷ some 7 ∷ [])
    ∷ (record { least = some 40; greatest = some 50; nulls = 0 }, some 40 ∷ some 50 ∷ [])
    ∷ []

abbrev batch : LookupBatch numbers
batch = record {
  num_columns = 3;
  null_counts = true;
  rows =
      some (record { least = some 1; greatest = some 9; nulls = 1 })
      ∷ some (record { least = some 40; greatest = some 50; nulls = 0 })
      ∷ [];
}

estimated : estimate_pages numbers batch search_for ≡ some 1
unfolding estimate_pages
estimated = refl

estimate_pages_lem_example :
    (matching numbers at_most search_for index ≤ 1)
    × (1 ≤ length (lookup_of numbers at_most index))
    × (length (lookup_of numbers at_most index) ≤ max_lookup_pages)
    × (tally numbers search_for (lookup_of numbers at_most index) ≤ 2 * max_estimate_comparisons)
estimate_pages_lem_example =
    estimate_pages_lem numbers-IsOrdered search_for batch index 1
      ((refl, (refl, (refl, tt))), ((refl, (refl, tt)), tt)) refl estimated
