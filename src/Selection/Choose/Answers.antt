-- ===== src/Selection/Choose/Answers.antt =====
-- When an index can answer its part of the query on the whole domain (`choose`,
-- src/scalar_index_selection.rs).
use lance_c.Prelude.{
  ℕ, ◌^◌, ◌<◌, String, Option, none, some, Bool, true, false, List, [], ◌∷◌, All, ok, err, ltb, ◌≡◌,
  refl, ap, subst, arith, Bool-cases, inl, inr, if◌then◌else◌,
}
use lance_c.Expression.{Scoped, scoped_expression}
use lance_c.Selection.{Values, SargableQuery, ◌>>=◌}
use lance_c.Selection.Probe.{Candidate, Expression, is_btree_expression}
use lance_c.Selection.Choose.{covers, btree_part, covered_part, usable_part}

module _ {A : Type 0} where
  guarded_some :
      (b : Bool) (o : Option A) (x : A)
      → Path (Option A) (if b then o else none) (some x)
      → (b ≡ true) × (o ≡ some x)
  guarded_some true o x h = (refl, h)
  guarded_some false o x h = cc

  some_same : (x y : A) → Path (Option A) (some x) (some y) → x ≡ y
  some_same x y h = cc

bind_some :
    {A B : Type 0} (o : Option A) (f : A → Option B) (b : B)
    → (o >>= f) ≡ some b
    → (a : A) × (o ≡ some a) × (f a ≡ some b)
bind_some none f b h = cc
bind_some (some a) f b h = (a, refl, h)

module _ (v : Values) where
  -- an index that covers all fragments, with the part of the query that it answers
  pub record Answers (index_query : Expression v) (ids : List ℕ) (c : Candidate v)
      (e : Expression v) : Type 0 where
    pub column : String
    pub coverage : ℕ → Bool
    pub left : ℕ
    pub keyed : c.column ≡ some column
    pub recorded : c.coverage ≡ some coverage
    pub covered : All (λ id. (id < 2 ^ 32) × (coverage id ≡ true)) ids
    pub part :
        scoped_expression (record { index_name = c.name; column = column }) index_query false 0 128
        ≡ ok (some e, left)
    pub btree : is_btree_expression e ≡ true

  covers-All :
      (coverage : ℕ → Bool) (ids : List ℕ)
      → covers v coverage ids ≡ true
      → All (λ id. (id < 2 ^ 32) × (coverage id ≡ true)) ids
  covers-All coverage [] h = tt
  covers-All coverage (id ∷ ids) h = elim (Bool-cases (ltb id (2 ^ 32))) [
    | inl small ↦ elim (Bool-cases (coverage id)) [
      | inl known ↦ (
        (ground (arith, small), known),
        covers-All coverage ids (ground (arith, h, small, known)),
      )
      | inr unknown ↦ ground (arith, h, small, unknown)
    ]
    | inr large ↦ ground (arith, h, large)
  ]

  btree_part-some :
      (r : Scoped (Option (SargableQuery v.Value))) (e : Expression v)
      → btree_part v r ≡ some e
      → (left : ℕ) × (r ≡ ok (some e, left)) × (is_btree_expression e ≡ true)
  btree_part-some (err x) e h = cc
  btree_part-some (ok (none, left)) e h = cc
  btree_part-some (ok (some f, left)) e h =
      let (b, found) = guarded_some (is_btree_expression f) (some f) e h in
      let same = some_same f e found in
      (left, ap (λ x. ok (some x, left)) same, subst (λ x. is_btree_expression x ≡ true) same b)

  pub usable_part-Answers :
      (q : Expression v) (ids : List ℕ) (c : Candidate v) (e : Expression v)
      → usable_part v q ids c ≡ some e
      → Answers q ids c e
  unfolding usable_part
  usable_part-Answers q ids c e u =
      let (column, keyed, u) = bind_some c.column _ e u in
      let (coverage, recorded, u) = bind_some c.coverage _ e u in
      let (covered, u) = guarded_some (covers v coverage ids) (covered_part v c column q) e u in
      let (left, part, btree) = btree_part-some _ e u in
      record {
        column = column;
        coverage = coverage;
        left = left;
        keyed = keyed;
        recorded = recorded;
        covered = covers-All coverage ids covered;
        part = part;
        btree = btree;
      }
