-- ===== src/Expression/Examples.antt =====
-- A conjunction with a foreign leaf, under no negation: one side of it is kept.
use lance_c.Prelude.{ℕ, ◌-◌, ◌+◌, ◌≤◌, Option, some, false, true, ok, ◌≡◌, ◌↔◌, refl, arith}
use text.Mathlib.TextEquality.{eq_iff}
use lance_c.Expression.{Search, Expr, query, and, not, Segment, scoped_expression}
use lance_c.Expression.Meaning.{Truth, holds, eval, IsOn, size, scoped_expression_sound}
use lance_c.Expression.Budget.{height, scoped_expression_budget}

abbrev segment : Segment
segment = record { index_name = "age_idx"; column = "age" }

abbrev on_age : ℕ → Search ℕ
on_age n = record { column = "age"; index_name = "age_idx"; index_type = "BTree"; query = n }

abbrev on_city : Search ℕ
on_city = record { column = "city"; index_name = "city_idx"; index_type = "BTree"; query = 7 }

abbrev filter : Expr ℕ
filter = and (query on_city) (not (query (on_age 3)))

abbrev kept : Expr ℕ
kept = not (query (on_age 3))

scoped : scoped_expression segment filter false 0 128 ≡ ok (some kept, 124)
unfolding scoped_expression
scoped = refl

scoped_expression_sound_example :
    ((row : Search ℕ → Truth) → eval row filter ≡ holds → eval row kept ≡ holds)
    × (false ≡ true → kept ≡ filter)
    × IsOn segment kept
scoped_expression_sound_example = scoped_expression_sound segment filter kept false 0 128 124 scoped

scoped_expression_budget_example :
    ((o : Option (Expr ℕ)) × (scoped_expression segment filter false 0 128
        ≡ ok (o, 128 - size filter)))
    ↔ ((size filter ≤ 128) × (0 + height filter ≤ 32))
scoped_expression_budget_example =
    scoped_expression_budget segment filter false 0 128
      ((λ e. ground (arith, (eq_iff "city_idx" "age_idx").1 e)), (λ _. refl))
