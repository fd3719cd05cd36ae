-- ===== src/Selection/Choose/Chosen.antt =====
-- What `choose` may settle on (src/scalar_index_selection.rs).
use mathlib.Core.List.{Memᴰ}
use lance_c.Prelude.{
  ℕ, ◌<◌, ◌≤◌, Option, none, some, Bool, true, false, List, [], ◌∷◌, ltb, leb, ◌≡◌, refl, arith,
  Bool-cases, inl, inr, if◌then◌else◌,
}
use lance_c.Selection.{Values}
use lance_c.Selection.Probe.{
  Candidate, Expression, ProbeBudget, full_budget, is_btree_expression, estimate_cost,
}
use lance_c.Selection.Choose.{
  max_candidates, ReadDomain, usable_part, Best, probed, consider_part, consider, consider_all,
  alternatives, settled_on, choose_from, choose,
}
use lance_c.Selection.Choose.Answers.{Answers, usable_part-Answers}
use lance_c.Selection.Choose.Alternatives.{alternatives-Mem}

if_either : {A : Type 0} (P : A → Type 0) (b : Bool) (x y : A) → P x → P y → P (if b then x else y)
if_either P true x y p q = p
if_either P false x y p q = q

module _ (v : Values) where
  -- an index whose estimate is below that of the grouping index
  pub record Cheaper (grouping : Candidate v) (e : Expression v) (c : Candidate v)
      (f : Expression v) : Type 0 where
    pub cost : ℕ
    pub pages : ℕ
    pub before : ProbeBudget
    pub after : ProbeBudget
    pub estimated : estimate_cost v c f before ≡ (some (cost, pages), after)
    pub grouping_cost : ℕ
    pub grouping_pages : ℕ
    pub left : ProbeBudget
    pub compared :
        estimate_cost v grouping e full_budget ≡ (some (grouping_cost, grouping_pages), left)
    pub cheaper : cost < grouping_cost

  -- the grouping index with its expression, or one of the indices with an answer
  pub data Selected (indices : List (Candidate v)) (grouping : Candidate v) (e : Expression v)
      (index_query : Expression v) (ids : List ℕ) : ℕ → Expression v → Type 0 where
    kept : Selected indices grouping e index_query ids grouping.uuid e
    changed :
        (c : Candidate v) (f : Expression v)
        → Memᴰ c indices
        → Answers v index_query ids c f
        → Cheaper grouping e c f
        → Selected indices grouping e index_query ids c.uuid f

  -- what holds of the best index so far
  record Found (indices : List (Candidate v)) (grouping : Candidate v) (e : Expression v)
      (index_query : Expression v) (ids : List ℕ) (cost : ℕ) (best : Best v) : Type 0 where
    cheaper : best.cost ≤ cost
    selected : Selected indices grouping e index_query ids best.uuid best.expression

  module _ (indices : List (Candidate v)) (grouping : Candidate v) (e index_query : Expression v)
      (ids : List ℕ) (cost pages : ℕ) (left : ProbeBudget)
      (compared : estimate_cost v grouping e full_budget ≡ (some (cost, pages), left)) where
    probed-Found :
        (best : Best v) (c : Candidate v) (f : Expression v) (r : Option (ℕ × ℕ) × ProbeBudget)
        → Found indices grouping e index_query ids cost best
        → estimate_cost v c f best.budget ≡ r
        → Memᴰ c indices
        → Answers v index_query ids c f
        → Found indices grouping e index_query ids cost (probed v best c f r)
    probed-Found best c f (none, budget) i k m a = record {
      cheaper = i.cheaper;
      selected = i.selected;
    }
    probed-Found best c f (some (n, p), budget) i k m a = elim (Bool-cases (ltb n best.cost)) [
      | inl less ↦ rw less (record {
        cheaper = ground (arith, less, i.cheaper);
        selected = changed c f m a (record {
          cost = n;
          pages = p;
          before = best.budget;
          after = budget;
          estimated = k;
          grouping_cost = cost;
          grouping_pages = pages;
          left = left;
          compared = compared;
          cheaper = ground (arith, less, i.cheaper);
        });
      })
      | inr more ↦ rw more (record { cheaper = i.cheaper; selected = i.selected })
    ]

    part-Found :
        (best : Best v) (c : Candidate v) (r : Option (Expression v))
        → usable_part v index_query ids c ≡ r
        → Memᴰ c indices
        → Found indices grouping e index_query ids cost best
        → Found indices grouping e index_query ids cost (consider_part v best c r)
    part-Found best c none u m i = i
    part-Found best c (some f) u m i =
        probed-Found best c f (estimate_cost v c f best.budget) i refl m
          (usable_part-Answers v index_query ids c f u)

    consider-Found :
        (best : Best v) (c : Candidate v)
        → Memᴰ c indices
        → Found indices grouping e index_query ids cost best
        → Found indices grouping e index_query ids cost (consider v index_query ids best c)
    unfolding consider
    consider-Found best c m i = elim (Bool-cases (leb max_candidates best.candidates)) [
      | inl full ↦ rw full i
      | inr room ↦ rw room (part-Found best c (usable_part v index_query ids c) refl m i)
    ]

    consider_all-Found :
        (cs : List (Candidate v)) (best : Best v)
        → ((c : Candidate v) → Memᴰ c cs → Memᴰ c indices)
        → Found indices grouping e index_query ids cost best
        → Found indices grouping e index_query ids cost (consider_all v index_query ids cs best)
    unfolding consider_all
    consider_all-Found [] best within i = i
    consider_all-Found (c ∷ cs) best within i =
        consider_all-Found cs (consider v index_query ids best c) (λ d m. within d (Memᴰ.tail m))
          (consider-Found best c (within c (Memᴰ.head refl)) i)

  -- what the result of a choice says
  abbrev pub Settled :
      List (Candidate v)
      → Candidate v
      → Expression v
      → Expression v
      → ReadDomain v
      → Option (ℕ × Expression v)
      → Type 0
  Settled indices grouping e index_query domain none =
      (cost : ℕ) × (pages : ℕ) × (left : ProbeBudget) × (estimate_cost v grouping e full_budget
        ≡ (some (cost, pages), left))
      × (domain.physical_rows ≤ cost)
  Settled indices grouping e index_query domain (some (uuid, f)) =
      Selected indices grouping e index_query domain.fragment_ids uuid f

  module _ (indices : List (Candidate v)) (grouping : Candidate v) (e index_query : Expression v)
      (domain : ReadDomain v) where
    settled_on-Settled :
        (cost pages : ℕ) (left : ProbeBudget) (best : Best v)
        → estimate_cost v grouping e full_budget ≡ (some (cost, pages), left)
        → Found indices grouping e index_query domain.fragment_ids cost best
        → Settled indices grouping e index_query domain (settled_on v domain.physical_rows best)
    settled_on-Settled cost pages left best compared i =
        elim (Bool-cases (leb domain.physical_rows best.cost)) [
          | inl scan ↦ rw scan (cost, pages, left, compared, ground (arith, scan, i.cheaper))
          | inr search ↦ rw search i.selected
        ]

    choose_from-Settled :
        (r : Option (ℕ × ℕ) × ProbeBudget)
        → estimate_cost v grouping e full_budget ≡ r
        → Settled indices grouping e index_query domain
            (choose_from v indices grouping e index_query domain r)
    choose_from-Settled (none, left) compared = kept
    choose_from-Settled (some (cost, pages), left) compared =
        settled_on-Settled cost pages left _ compared (
          consider_all-Found indices grouping e index_query domain.fragment_ids cost pages left
            compared (alternatives v grouping.uuid indices) _
            (λ c m. alternatives-Mem v grouping.uuid c indices m)
            (record { cheaper = ground arith; selected = kept }))

    -- A choice settles on the grouping index with its own expression, or on one of the indices that
    -- has a lower estimate and covers every fragment of the domain, with the part of the query that
    -- `scoped_expression` gives for that index, all of it on BTrees. A full scan is chosen only if
    -- the grouping index has an estimate, of at least as many rows as the domain has.
    pub choose-Settled :
        Settled indices grouping e index_query domain
          (choose v indices grouping e index_query domain)
    unfolding choose
    choose-Settled =
        if_either (Settled indices grouping e index_query domain) (is_btree_expression e) _ _
          (choose_from-Settled (estimate_cost v grouping e full_budget) refl) kept
