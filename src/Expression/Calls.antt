-- ===== src/Expression/Calls.antt =====
-- What a successful call of `scoped_expression` on a compound expression has done.
use lance_c.Prelude.{
  ℕ, ◌+◌, ◌-◌, ◌≤◌, ◌<◌, Option, Bool, true, ok, ◌>>=◌, ◌≡◌, arith, ok_of_bind, ap, ◌∙◌,
}
use lance_c.Expression.{Expr, Segment, Scoped, spend, negate, scoped_expression}

module _ {Q : Type 0} where
  abbrev give : Option (Expr Q) → ℕ → Scoped Q
  give o r = ok (o, r)

  give_inj : (o o' : Option (Expr Q)) (r r' : ℕ) → give o r ≡ give o' r' → (o ≡ o') × (r ≡ r')
  give_inj o o' r r' h = ground arith

  pub spend_ok :
      (depth remaining : ℕ) (visit : ℕ → Scoped Q) {x : Option (Expr Q) × ℕ}
      → spend depth remaining visit ≡ ok x
      → visit (remaining - 1) ≡ ok x
  spend_ok depth remaining visit h = ground arith

  pub spend_room :
      (depth remaining : ℕ) (visit : ℕ → Scoped Q) {x : Option (Expr Q) × ℕ}
      → spend depth remaining visit ≡ ok x
      → (depth ≤ 32) × (0 < remaining)
  spend_room depth remaining visit h = ground arith

  -- both sides were visited, the right with what the left has left over
  pub record Both (s : Segment) (a b : Expr Q) (complete : Bool) (depth remaining : ℕ)
      (join : Option (Expr Q) → Option (Expr Q) → Option (Expr Q)) (o : Option (Expr Q)) (r : ℕ)
      : Type 0 where
    pub lhs : Option (Expr Q)
    pub rhs : Option (Expr Q)
    pub between : ℕ
    pub lhs_call : scoped_expression s a complete (depth + 1) (remaining - 1) ≡ ok (lhs, between)
    pub rhs_call : scoped_expression s b complete (depth + 1) between ≡ ok (rhs, r)
    pub joined : join lhs rhs ≡ o

  -- the visit of a conjunction or a disjunction
  abbrev pub visit_both :
      Segment
      → Expr Q
      → Expr Q
      → Bool
      → ℕ
      → (Option (Expr Q) → Option (Expr Q) → Option (Expr Q))
      → ℕ
      → Scoped Q
  visit_both s a b complete depth join r = do
    (l, r') ← scoped_expression s a complete (depth + 1) r
    (m, r'') ← scoped_expression s b complete (depth + 1) r'
    ok (join l m, r'')

  pub Both-ok :
      (s : Segment) (a b : Expr Q) (complete : Bool) (depth remaining : ℕ)
      (join : Option (Expr Q) → Option (Expr Q) → Option (Expr Q)) {o : Option (Expr Q)} {r : ℕ}
      → spend depth remaining (visit_both s a b complete depth join) ≡ ok (o, r)
      → Both s a b complete depth remaining join o r
  Both-ok s a b complete depth remaining join {o} {r} h =
      let visited = spend_ok depth remaining (visit_both s a b complete depth join) h in
      let (p, lhs_call, later) =
        ok_of_bind (scoped_expression s a complete (depth + 1) (remaining - 1))
          (λ p. scoped_expression s b complete (depth + 1) p.1 >>= λ q. give (join p.0 q.0) q.1)
          visited in
      let (q, rhs_call, last) =
        ok_of_bind (scoped_expression s b complete (depth + 1) p.1) (λ q. give (join p.0 q.0) q.1)
          later in
      let (joined, left) = give_inj (join p.0 q.0) o q.1 r last in
      record {
        lhs = p.0;
        rhs = q.0;
        between = p.1;
        lhs_call = lhs_call;
        rhs_call = rhs_call ∙ ap (give q.0) left;
        joined = joined;
      }

  pub record One (s : Segment) (a : Expr Q) (depth remaining : ℕ) (o : Option (Expr Q)) (r : ℕ)
      : Type 0 where
    pub inner : Option (Expr Q)
    pub inner_call : scoped_expression s a true (depth + 1) (remaining - 1) ≡ ok (inner, r)
    pub joined : negate inner ≡ o

  abbrev pub visit_one : Segment → Expr Q → ℕ → ℕ → Scoped Q
  visit_one s a depth r = do (i, r') ← scoped_expression s a true (depth + 1) r; ok (negate i, r')

  pub One-ok :
      (s : Segment) (a : Expr Q) (depth remaining : ℕ) {o : Option (Expr Q)} {r : ℕ}
      → spend depth remaining (visit_one s a depth) ≡ ok (o, r)
      → One s a depth remaining o r
  One-ok s a depth remaining {o} {r} h =
      let visited = spend_ok depth remaining (visit_one s a depth) h in
      let (p, inner_call, last) =
        ok_of_bind (scoped_expression s a true (depth + 1) (remaining - 1))
          (λ p. give (negate p.0) p.1) visited in
      let (joined, left) = give_inj (negate p.0) o p.1 r last in
      record { inner = p.0; inner_call = inner_call ∙ ap (give p.0) left; joined = joined }
