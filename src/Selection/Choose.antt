-- ===== src/Selection/Choose.antt =====
-- The choice among BTree indices (`choose`): alternatives are probed in turn, and none is taken if a
-- full scan costs less.
pub mod Answers
pub mod Alternatives
pub mod Chosen
mod Examples
use Prim.Native.String.{compare as compare_string}
use Prim.Native.Nat.{Ordering as Order}
use lance_c.Prelude.{
  ℕ, ◌+◌, ◌^◌, String, Option, none, some, Bool, true, false, not as bool_not, ◌||◌, List, [], ◌∷◌,
  any, ok, err, ◌==◌, ltb, leb, if◌then◌else◌,
}
use lance_c.Expression.{Expr, Scoped, scoped_expression}
use lance_c.Selection.{Values, SargableQuery, ◌>>=◌}
use lance_c.Selection.Probe.{
  Candidate, Expression, ProbeBudget, full_budget, is_btree_expression, estimate_cost,
}

abbrev pub max_candidates : ℕ
max_candidates = 8

module _ (v : Values) where
  pub record ReadDomain : Type 0 where
    pub fragment_ids : List ℕ
    pub physical_rows : ℕ

  abbrev pub covers : (ℕ → Bool) → List ℕ → Bool
  covers coverage ids =
      bool_not (any (λ id. bool_not (ltb id (2 ^ 32)) || bool_not (coverage id)) ids)

  abbrev pub btree_part : Scoped (Option (SargableQuery v.Value)) → Option (Expression v)
  btree_part (err reason) = none
  btree_part (ok (none, left)) = none
  btree_part (ok (some e, left)) = if is_btree_expression e then some e else none

  abbrev pub covered_part : Candidate v → String → Expression v → Option (Expression v)
  covered_part c column e =
      btree_part (scoped_expression (record { index_name = c.name; column = column }) e false 0 128)

  -- the part of the query that an alternative can answer, if it covers the domain
  unfoldable pub usable_part : Expression v → List ℕ → Candidate v → Option (Expression v)
  usable_part index_query ids c = do
    column ← c.column
    coverage ← c.coverage
    if covers coverage ids then covered_part c column index_query else none

  pub record Best : Type 0 where
    pub cost : ℕ
    pub pages : ℕ
    pub uuid : ℕ
    pub expression : Expression v
    pub candidates : ℕ
    pub budget : ProbeBudget

  abbrev pub probed : Best → Candidate v → Expression v → Option (ℕ × ℕ) × ProbeBudget → Best
  probed best c e (none, budget) = record best { candidates = best.candidates + 1; budget = budget }
  probed best c e (some (cost, pages), budget) =
      if ltb cost best.cost
      then record {
        cost = cost;
        pages = pages;
        uuid = c.uuid;
        expression = e;
        candidates = best.candidates + 1;
        budget = budget;
      }
      else record best { candidates = best.candidates + 1; budget = budget }

  abbrev pub consider_part : Best → Candidate v → Option (Expression v) → Best
  consider_part best c none = best
  consider_part best c (some e) = probed best c e (estimate_cost v c e best.budget)

  -- one turn of the loop, which ends at the eighth candidate
  unfoldable pub consider : Expression v → List ℕ → Best → Candidate v → Best
  unfolding usable_part estimate_cost
  consider index_query ids best c =
      if leb max_candidates best.candidates
      then best
      else consider_part best c (usable_part index_query ids c)

  unfoldable pub consider_all : Expression v → List ℕ → List (Candidate v) → Best → Best
  consider_all index_query ids [] best = best
  consider_all index_query ids (c ∷ cs) best =
      consider_all index_query ids cs (consider index_query ids best c)

  abbrev pub precedes : Candidate v → Candidate v → Bool
  precedes a b = elim (compare_string a.name b.name) [
    | Order.lt ↦ true
    | Order.eq ↦ leb a.uuid b.uuid
    | Order.gt ↦ false
  ]

  abbrev pub insert_sorted : Candidate v → List (Candidate v) → List (Candidate v)
  insert_sorted c [] = c ∷ []
  insert_sorted c (d ∷ ds) =
      let rest = insert_sorted c ds in if precedes c d then c ∷ d ∷ ds else d ∷ rest

  -- the indices other than the grouping one, by name and UUID
  unfoldable pub alternatives : ℕ → List (Candidate v) → List (Candidate v)
  alternatives grouping [] = []
  alternatives grouping (c ∷ cs) =
      let rest = alternatives grouping cs in
      if c.uuid == grouping then rest else insert_sorted c rest

  abbrev pub settled_on : ℕ → Best → Option (ℕ × Expression v)
  settled_on physical_rows best =
      if leb physical_rows best.cost then none else some (best.uuid, best.expression)

  abbrev pub choose_from :
      List (Candidate v)
      → Candidate v
      → Expression v
      → Expression v
      → ReadDomain
      → Option (ℕ × ℕ) × ProbeBudget
      → Option (ℕ × Expression v)
  choose_from indices grouping e index_query domain (none, budget) = some (grouping.uuid, e)
  choose_from indices grouping e index_query domain (some (cost, pages), budget) =
      settled_on domain.physical_rows (
        consider_all index_query domain.fragment_ids (alternatives grouping.uuid indices) (record {
          cost = cost;
          pages = pages;
          uuid = grouping.uuid;
          expression = e;
          candidates = 1;
          budget = budget;
        }))

  -- `choose`, without its statistics
  unfoldable pub choose :
      List (Candidate v)
      → Candidate v
      → Expression v
      → Expression v
      → ReadDomain
      → Option (ℕ × Expression v)
  unfolding consider_all alternatives estimate_cost
  choose indices grouping e index_query domain =
      if is_btree_expression e
      then choose_from indices grouping e index_query domain
          (estimate_cost v grouping e full_budget)
      else some (grouping.uuid, e)
