-- ===== src/Expression/Meaning.antt =====
-- What an index expression says of a row, with NULL as the third truth value, and that what
-- `scoped_expression` keeps is never narrower.
use mathlib.Core.Path.{ap₂}
use text.Mathlib.TextEquality.{eq_iff}
use lance_c.Prelude.{ℕ, ◌+◌, ◌-◌, Option, none, some, Bool, true, false, ok, ◌≡◌, refl, arith, ap}
use lance_c.Expression.Calls.{spend_ok, Both-ok, One-ok}
use lance_c.Expression.{
  Search, Expr, query, and, or, not, Segment, scoped_leaf, join_and, join_or, negate,
  scoped_expression,
}

pub data Truth : Type 0 where
  holds fails unknown : Truth

unfoldable pub conj : Truth → Truth → Truth
conj fails _ = fails
conj holds t = t
conj unknown fails = fails
conj unknown _ = unknown

unfoldable pub disj : Truth → Truth → Truth
disj holds _ = holds
disj fails t = t
disj unknown holds = holds
disj unknown _ = unknown

unfoldable pub neg : Truth → Truth
neg holds = fails
neg fails = holds
neg unknown = unknown

conj_inv : (x y : Truth) → conj x y ≡ holds → (x ≡ holds) × (y ≡ holds)
unfolding conj
conj_inv x y h = ground arith

disj_mono :
    (x y x' y' : Truth)
    → (x ≡ holds → x' ≡ holds)
    → (y ≡ holds → y' ≡ holds)
    → disj x y ≡ holds
    → disj x' y' ≡ holds
unfolding disj
disj_mono x y x' y' f g h = ground arith

conj_mono :
    (x y x' y' : Truth)
    → (x ≡ holds → x' ≡ holds)
    → (y ≡ holds → y' ≡ holds)
    → conj x y ≡ holds
    → conj x' y' ≡ holds
unfolding conj
conj_mono x y x' y' f g h = ground arith

module _ {Q : Type 0} where
  -- the value of an expression at a row, from the values of its leaves
  unfoldable pub eval : (Search Q → Truth) → Expr Q → Truth
  unfolding conj disj neg
  eval row (query leaf) = row leaf
  eval row (and a b) = conj (eval row a) (eval row b)
  eval row (or a b) = disj (eval row a) (eval row b)
  eval row (not a) = neg (eval row a)

  -- every leaf is on the segment
  abbrev pub IsOn : Segment → Expr Q → Type 0
  IsOn s (query leaf) = (leaf.index_name ≡ s.index_name) × (leaf.column ≡ s.column)
  IsOn s (and a b) = IsOn s a × IsOn s b
  IsOn s (or a b) = IsOn s a × IsOn s b
  IsOn s (not a) = IsOn s a

  abbrev pub size : Expr Q → ℕ
  size (query leaf) = 1
  size (and a b) = size a + size b + 1
  size (or a b) = size a + size b + 1
  size (not a) = size a + 1

  -- what is claimed of a result `o` with `r'` nodes left, for an expression given `r` nodes
  abbrev Sound : Segment → Expr Q → Bool → Option (Expr Q) → Type 0
  Sound s e complete none = Unit
  Sound s e complete (some e') =
      ((row : Search Q → Truth) → eval row e ≡ holds → eval row e' ≡ holds)
      × (complete ≡ true → e' ≡ e)
      × IsOn s e'

  leaf-Sound :
      (s : Segment) (leaf : Search Q) (complete : Bool) (remaining : ℕ) (o : Option (Expr Q))
      (r : ℕ)
      → scoped_leaf s leaf remaining ≡ ok (o, r)
      → Sound s (query leaf) complete o
  unfolding scoped_leaf
  leaf-Sound s leaf complete remaining none r h = tt
  leaf-Sound s leaf complete remaining (some e') r h =
      let same : e' ≡ query leaf =
        ground (arith, eq_iff leaf.index_name s.index_name, eq_iff leaf.column s.column) in
      rw same (
        (λ row k. k),
        (λ _. refl),
        (
          (eq_iff leaf.index_name s.index_name).0 (ground arith),
          (eq_iff leaf.column s.column).0 (ground arith),
        ),
      )

  and_Sound :
      (s : Segment) (a b : Expr Q) (complete : Bool) (l m : Option (Expr Q))
      → Sound s a complete l
      → Sound s b complete m
      → Sound s (and a b) complete (join_and complete l m)
  unfolding join_and eval
  and_Sound s a b true (some l) (some m) h k = (
    (λ row. conj_mono (eval row a) (eval row b) (eval row l) (eval row m) (h.0 row) (k.0 row)),
    (λ e. ap₂ and (h.1 e) (k.1 e)),
    (h.2, k.2),
  )
  and_Sound s a b false (some l) (some m) h k = (
    (λ row. conj_mono (eval row a) (eval row b) (eval row l) (eval row m) (h.0 row) (k.0 row)),
    (λ e. cc),
    (h.2, k.2),
  )
  and_Sound s a b true none m h k = tt
  and_Sound s a b true (some l) none h k = tt
  and_Sound s a b false (some l) none h k =
      ((λ row p. h.0 row (conj_inv (eval row a) (eval row b) p).0), (λ e. cc), h.2)
  and_Sound s a b false none (some m) h k =
      ((λ row p. k.0 row (conj_inv (eval row a) (eval row b) p).1), (λ e. cc), k.2)
  and_Sound s a b false none none h k = tt

  or_Sound :
      (s : Segment) (a b : Expr Q) (complete : Bool) (l m : Option (Expr Q))
      → Sound s a complete l
      → Sound s b complete m
      → Sound s (or a b) complete (join_or l m)
  unfolding join_or eval
  or_Sound s a b complete (some l) (some m) h k = (
    (λ row. disj_mono (eval row a) (eval row b) (eval row l) (eval row m) (h.0 row) (k.0 row)),
    (λ e. ap₂ or (h.1 e) (k.1 e)),
    (h.2, k.2),
  )
  or_Sound s a b complete none m h k = tt
  or_Sound s a b complete (some l) none h k = tt

  -- under a negation the whole subtree is kept
  not-Sound :
      (s : Segment) (a : Expr Q) (complete : Bool) (i : Option (Expr Q))
      → Sound s a true i
      → Sound s (not a) complete (negate i)
  unfolding eval
  not-Sound s a complete none h = tt
  not-Sound s a complete (some i) h = ((λ row p. rw (h.1 refl) p), (λ e. ap not (h.1 refl)), h.2)

  sound :
      (s : Segment) (e : Expr Q) (complete : Bool) (depth remaining : ℕ) (o : Option (Expr Q))
      (r : ℕ)
      → scoped_expression s e complete depth remaining ≡ ok (o, r)
      → Sound s e complete o
  unfolding scoped_expression
  sound s (query leaf) complete depth remaining o r h =
      leaf-Sound s leaf complete (remaining - 1) o r
        (spend_ok depth remaining (scoped_leaf s leaf) h)
  sound s (and a b) complete depth remaining o r h =
      let c = Both-ok s a b complete depth remaining (join_and complete) h in
      rw (← c.joined) (
        and_Sound s a b complete c.lhs c.rhs (sound s a complete _ _ c.lhs c.between c.lhs_call)
          (sound s b complete _ _ c.rhs r c.rhs_call))
  sound s (or a b) complete depth remaining o r h =
      let c = Both-ok s a b complete depth remaining join_or h in
      rw (← c.joined) (
        or_Sound s a b complete c.lhs c.rhs (sound s a complete _ _ c.lhs c.between c.lhs_call)
          (sound s b complete _ _ c.rhs r c.rhs_call))
  sound s (not a) complete depth remaining o r h =
      let c = One-ok s a depth remaining h in
      rw (← c.joined) (not-Sound s a complete c.inner (sound s a true _ _ c.inner r c.inner_call))

  -- Whatever an expression is restricted to is a superset of its matches, also with NULLs: at each
  -- assignment of truth values to the leaves where the expression holds, what is kept of it holds.
  -- Where the whole is needed, as under a negation, what is kept is the expression itself. And every
  -- leaf that is kept is on the segment, so that the segment's loader accepts it.
  pub scoped_expression_sound :
      (s : Segment) (e e' : Expr Q) (complete : Bool) (depth remaining r : ℕ)
      → scoped_expression s e complete depth remaining ≡ ok (some e', r)
      → ((row : Search Q → Truth) → eval row e ≡ holds → eval row e' ≡ holds)
        × (complete ≡ true → e' ≡ e)
        × IsOn s e'
  scoped_expression_sound s e e' complete depth remaining r =
      sound s e complete depth remaining (some e') r
