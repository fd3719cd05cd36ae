-- ===== src/Expression.antt =====
-- Index expressions, and their restriction to one index segment (src/scalar_segment.rs,
-- `scoped_expression`). `ScalarIndexExpr` is a type of the index library; its four forms are what
-- the source matches on, and the query of a leaf is a parameter.
mod Calls
pub mod Meaning
pub mod Budget
mod Examples
use text.Mathlib.Text.{◌==◌ as str_eq}
use lance_c.Prelude.{
  ℕ, ◌+◌, ◌-◌, String, Option, none, some, Bool, true, false, not as bool_not, ◌||◌, Result, ok,
  err, ◌>>=◌, ◌≡◌, ◌==◌, ltb, if◌then◌else◌,
}

-- `ScalarIndexSearch`, without what the scan does not read
pub record Search (Q : Type 0) : Type 0 where
  pub column : String
  pub index_name : String
  pub index_type : String
  pub query : Q

pub data Expr (Q : Type 0) : Type 0 where
  query : Search Q → Expr Q
  and : Expr Q → Expr Q → Expr Q
  or : Expr Q → Expr Q → Expr Q
  not : Expr Q → Expr Q

-- why a segment cannot drive the scan
pub data Reason : Type 0 where
  expression_budget : Reason
  field_path : Reason

-- the segment's logical index and its key column
pub record Segment : Type 0 where
  pub index_name : String
  pub column : String

abbrev pub max_expression_nodes : ℕ
max_expression_nodes = 128

abbrev pub max_expression_depth : ℕ
max_expression_depth = 32

-- An expression, if some part of it is on the segment, and the nodes left in the budget.
abbrev pub Scoped : Type 0 → Type 0
Scoped Q = Result Reason (Option (Expr Q) × ℕ)

module _ {Q : Type 0} where
  -- the guard at the head of `scoped_expression`; each call takes one node of the budget
  abbrev pub spend : ℕ → ℕ → (ℕ → Scoped Q) → Scoped Q
  spend depth remaining visit =
      if ltb max_expression_depth depth || (remaining == 0)
      then err expression_budget
      else visit (remaining - 1)

  unfoldable pub scoped_leaf : Segment → Search Q → ℕ → Scoped Q
  scoped_leaf segment leaf remaining =
      if bool_not (str_eq leaf.index_name segment.index_name)
      then ok (none, remaining)
      else if bool_not (str_eq leaf.column segment.column)
      then err field_path
      else ok (some (query leaf), remaining)

  -- Of a conjunction one side is enough, unless the whole is needed.
  unfoldable pub join_and : Bool → Option (Expr Q) → Option (Expr Q) → Option (Expr Q)
  join_and complete (some lhs) (some rhs) = some (and lhs rhs)
  join_and true _ _ = none
  join_and false (some lhs) none = some lhs
  join_and false none rhs = rhs

  unfoldable pub join_or : Option (Expr Q) → Option (Expr Q) → Option (Expr Q)
  join_or (some lhs) (some rhs) = some (or lhs rhs)
  join_or _ _ = none

  abbrev pub negate : Option (Expr Q) → Option (Expr Q)
  negate none = none
  negate (some e) = some (not e)

  unfoldable pub scoped_expression : Segment → Expr Q → Bool → ℕ → ℕ → Scoped Q
  unfolding scoped_leaf join_and join_or
  scoped_expression segment (query leaf) complete depth remaining =
      spend depth remaining (scoped_leaf segment leaf)
  scoped_expression segment (and lhs rhs) complete depth remaining = spend depth remaining λ r. do
    (l, r') ← scoped_expression segment lhs complete (depth + 1) r
    (m, r'') ← scoped_expression segment rhs complete (depth + 1) r'
    ok (join_and complete l m, r'')
  scoped_expression segment (or lhs rhs) complete depth remaining = spend depth remaining λ r. do
    (l, r') ← scoped_expression segment lhs complete (depth + 1) r
    (m, r'') ← scoped_expression segment rhs complete (depth + 1) r'
    ok (join_or l m, r'')
  scoped_expression segment (not inner) complete depth remaining =
      spend depth remaining
        λ r. do (i, r') ← scoped_expression segment inner true (depth + 1) r; ok (negate i, r')

  -- `SegmentIndexLoader::load_index`: the one segment, for its own column and name only
  unfoldable pub load_index : {I : Type 0} → Segment → I → Search Q → Option I
  load_index segment index leaf =
      if bool_not (str_eq leaf.column segment.column)
        || bool_not (str_eq leaf.index_name segment.index_name)
      then none
      else some index
