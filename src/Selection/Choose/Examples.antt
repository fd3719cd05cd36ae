-- ===== src/Selection/Choose/Examples.antt =====
-- Two indices over numbers, of which the second has smaller pages.
use lance_c.Prelude.{
  String, ℕ, Option, none, some, true, false, [], ◌∷◌, ltb, if◌then◌else◌, ◌≡◌, refl,
}
use lance_c.Expression.{Search, Expr, query, and}
use lance_c.Selection.{Ordering, less, equal, greater, Values, SargableQuery, equals, Page}
use lance_c.Selection.Probe.{Candidate, Expression, other_type}
use lance_c.Selection.Choose.{ReadDomain, choose}
use lance_c.Selection.Choose.Chosen.{Settled, choose-Settled}

abbrev numbers : Values
numbers = record { Value = ℕ; is_null = λ n. false; partial_cmp = compare }
  where
    compare : ℕ → ℕ → Option Ordering
    compare a b = some (if ltb a b then less else (if ltb b a then greater else equal))

abbrev search : String → String → ℕ → Expression numbers
search index_name column n = query (record {
  column = column;
  index_name = index_name;
  index_type = "BTree";
  query = some (equals n);
})

abbrev page : ℕ → ℕ → Page numbers
page a b = record { least = a; greatest = b; nulls = 0 }

-- it is read from its file, in pages of 4096 rows
abbrev by_age : Candidate numbers
by_age = record {
  uuid = 1;
  name = "age_idx";
  column = some "age";
  coverage = some (λ id. true);
  key = some (other_type (some 8));
  file_size = some 900;
  cached = none;
  file = some (record {
    num_rows = 2;
    fields = other_type (some 8) ∷ other_type (some 8) ∷ other_type (some 4) ∷ [];
    batch_size = none;
    rows = some (record {
      num_columns = 3;
      null_counts = true;
      rows = some (page 1 50) ∷ some (page 51 99) ∷ [];
    });
  });
}

-- it is in the cache, in pages of 100 rows
abbrev by_height : Candidate numbers
by_height = record {
  uuid = 2;
  name = "height_idx";
  column = some "height";
  coverage = some (λ id. true);
  key = some (other_type (some 8));
  file_size = some 900;
  cached = some (record {
    batch = record {
      num_columns = 3;
      null_counts = true;
      rows = some (page 100 180) ∷ some (page 170 250) ∷ [];
    };
    rows_per_page = 100;
    decoded_bytes = 4000;
  });
  file = none;
}

abbrev age_is_seven : Expression numbers
age_is_seven = search "age_idx" "age" 7

abbrev both : Expression numbers
both = and age_is_seven (search "height_idx" "height" 175)

abbrev domain : ℕ → ReadDomain numbers
domain rows = record { fragment_ids = 0 ∷ 3 ∷ []; physical_rows = rows }

-- two pages of 100 rows instead of one of 4096
chosen :
    choose numbers (by_age ∷ by_height ∷ []) by_age age_is_seven both (domain 5000)
    ≡ some (2, search "height_idx" "height" 175)
unfolding choose lance_c.Selection.Choose.consider lance_c.Expression.scoped_expression
chosen = refl

-- 200 rows are no fewer than a full scan reads
scanned : choose numbers (by_age ∷ by_height ∷ []) by_age age_is_seven both (domain 200) ≡ none
unfolding choose lance_c.Selection.Choose.consider lance_c.Expression.scoped_expression
scanned = refl

choose-Settled_example :
    Settled numbers
      (by_age ∷ by_height ∷ [])
      by_age
      age_is_seven
      both
      (domain 5000)
      (choose numbers (by_age ∷ by_height ∷ []) by_age age_is_seven both (domain 5000))
choose-Settled_example =
    choose-Settled numbers (by_age ∷ by_height ∷ []) by_age age_is_seven both (domain 5000)
