-- ===== src/Expression/Budget.antt =====
-- The node and depth budget of `scoped_expression`: which expressions it admits, and what it spends.
use Prim.Native.Nat.{max}
use text.Mathlib.Text.{◌==◌ as str_eq}
use text.Mathlib.TextEquality.{eq_iff}
use lance_c.Prelude.{
  ℕ, ◌+◌, ◌-◌, ◌≤◌, ◌<◌, Option, none, some, Bool, true, ok, ◌≡◌, arith, ap, ◌↔◌, inl, inr,
  Bool-cases,
}
use lance_c.Expression.{
  Search, Expr, query, and, or, not, Segment, Scoped, spend, scoped_leaf, join_and, join_or, negate,
  scoped_expression,
}
use lance_c.Expression.Calls.{spend_ok, spend_room, Both-ok, One-ok, visit_both, visit_one}
use lance_c.Expression.Meaning.{size}

module _ {Q : Type 0} where
  -- how far below the root the deepest leaf is
  abbrev pub height : Expr Q → ℕ
  height (query leaf) = 0
  height (and a b) = max (height a) (height b) + 1
  height (or a b) = max (height a) (height b) + 1
  height (not a) = height a + 1

  -- no leaf names the segment's index with a column that is not its key
  abbrev pub NoStray : Segment → Expr Q → Type 0
  NoStray s (query leaf) = leaf.index_name ≡ s.index_name → leaf.column ≡ s.column
  NoStray s (and a b) = NoStray s a × NoStray s b
  NoStray s (or a b) = NoStray s a × NoStray s b
  NoStray s (not a) = NoStray s a

  leaf_spends :
      (s : Segment) (leaf : Search Q) (n : ℕ) (o : Option (Expr Q)) (r : ℕ)
      → scoped_leaf s leaf n ≡ ok (o, r)
      → r ≡ n
  unfolding scoped_leaf
  leaf_spends s leaf n o r h = ground arith

  spent :
      (s : Segment) (e : Expr Q) (complete : Bool) (depth n : ℕ) (o : Option (Expr Q)) (r : ℕ)
      → scoped_expression s e complete depth n ≡ ok (o, r)
      → (r + size e ≡ n) × (depth + height e ≤ 32)
  unfolding scoped_expression
  spent s (query leaf) complete depth n o r h = omega (
    arith,
    spend_room depth n (scoped_leaf s leaf) h,
    leaf_spends s leaf (n - 1) o r (spend_ok depth n (scoped_leaf s leaf) h),
  )
  spent s (and a b) complete depth n o r h =
      let c = Both-ok s a b complete depth n (join_and complete) h in
      omega (
        arith,
        spend_room depth n (visit_both s a b complete depth (join_and complete)) h,
        spent s a complete _ _ c.lhs c.between c.lhs_call,
        spent s b complete _ _ c.rhs r c.rhs_call,
      )
  spent s (or a b) complete depth n o r h =
      let c = Both-ok s a b complete depth n join_or h in
      omega (
        arith,
        spend_room depth n (visit_both s a b complete depth join_or) h,
        spent s a complete _ _ c.lhs c.between c.lhs_call,
        spent s b complete _ _ c.rhs r c.rhs_call,
      )
  spent s (not a) complete depth n o r h =
      let c = One-ok s a depth n h in
      omega (
        arith,
        spend_room depth n (visit_one s a depth) h,
        spent s a true _ _ c.inner r c.inner_call,
      )

  spend_enters :
      (depth n : ℕ) (visit : ℕ → Scoped Q)
      → depth ≤ 32
      → 0 < n
      → spend depth n visit ≡ visit (n - 1)
  spend_enters depth n visit h k = ground arith

  leaf_admitted :
      (s : Segment) (leaf : Search Q) (n : ℕ)
      → NoStray s (query leaf)
      → (o : Option (Expr Q)) × (scoped_leaf s leaf n ≡ ok (o, n))
  unfolding scoped_leaf
  leaf_admitted s leaf n h = elim (Bool-cases (str_eq leaf.index_name s.index_name)) [
    | inr e ↦ (none, rw e)
    | inl e ↦
        let c = (eq_iff leaf.column s.column).1 (h ((eq_iff leaf.index_name s.index_name).0 e)) in
        (some (query leaf), rw e (rw c))
  ]

  -- what the recursion needs of two subexpressions
  abbrev Admitted : Segment → Expr Q → Bool → Type 0
  Admitted s e complete =
      (depth n : ℕ)
      → size e ≤ n
      → depth + height e ≤ 32
      → (o : Option (Expr Q)) × (scoped_expression s e complete depth n ≡ ok (o, n - size e))

  both-Admitted :
      (s : Segment) (a b : Expr Q) (complete : Bool)
      (join : Option (Expr Q) → Option (Expr Q) → Option (Expr Q))
      → Admitted s a complete
      → Admitted s b complete
      → (depth n : ℕ) → size a + size b + 1 ≤ n
      → depth + (max (height a) (height b) + 1) ≤ 32
      → (o : Option (Expr Q)) × (spend depth n (visit_both s a b complete depth join)
          ≡ ok (o, n - (size a + size b + 1)))
  both-Admitted s a b complete join ha hb depth n room deep =
      let (l, el) = ha (depth + 1) (n - 1) (omega arith) (omega arith) in
      let (m, em) = hb (depth + 1) (n - 1 - size a) (omega arith) (omega arith) in
      let left : n - 1 - size a - size b ≡ n - (size a + size b + 1) = omega arith in
      (
        join l m,
        rw (spend_enters depth n (visit_both s a b complete depth join) (omega arith) (omega arith))
            (rw el (rw em (ap (λ k. ok (join l m, k)) left))),
      )

  admitted : (s : Segment) (e : Expr Q) (complete : Bool) → NoStray s e → Admitted s e complete
  unfolding scoped_expression
  admitted s (query leaf) complete h depth n room deep =
      let (o, e) = leaf_admitted s leaf (n - 1) h in
      (o, rw (spend_enters depth n (scoped_leaf s leaf) (omega arith) (omega arith)) e)
  admitted s (and a b) complete h depth n room deep =
      both-Admitted s a b complete (join_and complete) (admitted s a complete h.0)
        (admitted s b complete h.1) depth n room deep
  admitted s (or a b) complete h depth n room deep =
      both-Admitted s a b complete join_or (admitted s a complete h.0) (admitted s b complete h.1)
        depth n room deep
  admitted s (not a) complete h depth n room deep =
      let (i, e) = admitted s a true h (depth + 1) (n - 1) (omega arith) (omega arith) in
      let left : n - 1 - size a ≡ n - (size a + 1) = omega arith in
      (
        negate i,
        rw (spend_enters depth n (visit_one s a depth) (omega arith) (omega arith))
            (rw e (ap (λ k. ok (negate i, k)) left)),
      )

  -- At a given depth and with `n` nodes left, an expression with no stray leaf is admitted exactly if
  -- it has at most `n` nodes and reaches at most to depth 32; it then spends one node for each of its
  -- own. So the evaluator's concurrent searches are at most 128.
  pub scoped_expression_budget :
      (s : Segment) (e : Expr Q) (complete : Bool) (depth n : ℕ)
      → NoStray s e
      → ((o : Option (Expr Q)) × (scoped_expression s e complete depth n ≡ ok (o, n - size e)))
        ↔ ((size e ≤ n) × (depth + height e ≤ 32))
  scoped_expression_budget s e complete depth n h = (
    (λ p. omega (arith, spent s e complete depth n p.0 (n - size e) p.1)),
    (λ q. admitted s e complete h depth n q.0 q.1),
  )
