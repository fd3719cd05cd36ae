-- ===== src/Segment/Model/Bounds.antt =====
-- What a model array that passes the tests has.
use lance_c.Prelude.{
  or_zero, ℕ, zero, suc, ◌+◌, ◌*◌, ◌≤◌, ◌<◌, pos, negsuc, natural, natural-some, some_of_ok_or,
  some, true, false, not, ok, ok_or, ok_of_bind, past_guard, ok_inj, ◌≡◌, sym, ap, subst, ◌∙◌, ◌==◌,
  ltb, ◌&&◌, ◌||◌, is_some, arith,
}
use lance_c.Scanner.Config.{invalid}
use lance_c.Scanner.Limits.{checked_mul, usize_mod}
use lance_c.Selection.{checked_add}
use lance_c.Segment.Model.{
  ModelType, fixed_size_list, other, ArrowArray, ModelArray, is_number, is_null_count, is_positive,
  has_buffer, validate_common, list_size_of, check_parent, check_child, first_child, mul_some,
  check_model,
}

common_ok :
    (a : ArrowArray) {o l : ℕ}
    → validate_common a ≡ ok (o, l)
    → (a.offset ≡ pos o) × (a.length ≡ pos l)
unfolding validate_common
common_ok a {o} {l} h =
    let (l', p, h1) =
      ok_of_bind (ok_or (natural a.length) (invalid "length and offset must be non-negative")) _
        h in
    let (o', q, h2) =
      ok_of_bind (ok_or (natural a.offset) (invalid "length and offset must be non-negative")) _
        h1 in
    let (_, h3) = past_guard (is_null_count a.null_count l') _ _ h2 in
    let (_, h4) =
      past_guard (is_some (natural a.n_buffers) && is_some (natural a.n_children)) _ _ h3 in
    let e = ok_inj h4 in
    (
      natural-some a.offset (some_of_ok_or _ _ q) ∙ ap (λ r. pos r.0) e,
      natural-some a.length (some_of_ok_or _ _ p) ∙ ap (λ r. pos r.1) e,
    )

parent_ok :
    (m : ModelArray) {r : ℕ × ℕ}
    → check_parent m ≡ ok r
    → (m.parent.offset ≡ pos r.0) × (m.parent.length ≡ pos r.1)
unfolding check_parent
parent_ok m h =
    let (_, h1) = past_guard (not m.parent.released) _ _ h in
    let (c, p, h2) = ok_of_bind (validate_common m.parent) _ h1 in
    let (_, h3) = past_guard (is_number m.parent.n_buffers 1 && is_some m.parent.buffers) _ _ h2 in
    let (_, h4) = past_guard (is_number m.parent.n_children 1 && is_some m.children) _ _ h3 in
    let (_, h5) = past_guard (not m.parent.dictionary) _ _ h4 in
    let (_, h6) =
      past_guard (not (is_positive m.parent.null_count) || has_buffer m.parent.buffers 0) _ _ h5 in
    let (o, l) = common_ok m.parent p in
    let e = ok_inj h6 in (o ∙ ap (λ r. pos r.0) e, l ∙ ap (λ r. pos r.1) e)

child_ok :
    (c : ArrowArray) {r : ℕ × ℕ}
    → check_child c ≡ ok r
    → (c.offset ≡ pos r.0) × (c.length ≡ pos r.1) × (0 < r.1 → has_buffer c.buffers 1 ≡ true)
unfolding check_child
child_ok c h =
    let (_, h1) = past_guard (not c.released) _ _ h in
    let (d, p, h2) = ok_of_bind (validate_common c) _ h1 in
    let (_, h3) = past_guard (is_number c.n_buffers 2 && is_some c.buffers) _ _ h2 in
    let (_, h4) = past_guard (is_number c.n_children 0 && not c.dictionary) _ _ h3 in
    let (_, h5) = past_guard (not (is_positive c.null_count) || has_buffer c.buffers 0) _ _ h4 in
    let (b, h6) = past_guard ((d.1 == 0) || has_buffer c.buffers 1) _ _ h5 in
    let (o, l) = common_ok c p in
    let e = ok_inj h6 in
    (
      o ∙ ap (λ r. pos r.0) e,
      l ∙ ap (λ r. pos r.1) e,
      λ k. ground (arith, b, subst (λ r. 0 < r.1) (sym e) k),
    )

size_ok :
    (t : ModelType) {n : ℕ} → list_size_of t ≡ ok n → (t ≡ fixed_size_list true (pos n)) × (0 < n)
unfolding list_size_of
size_ok other h = cc
size_ok (fixed_size_list true (pos zero)) h = cc
size_ok (fixed_size_list false (pos zero)) h = cc
size_ok (fixed_size_list false (pos (suc n))) h = cc
size_ok (fixed_size_list f (negsuc n)) h = cc
size_ok (fixed_size_list true (pos (suc n))) h =
    let e = ok_inj h in (ap (λ k. fixed_size_list true (pos k)) e, ground (arith, e))

-- What the tests establish of an array of `length` lists behind `offset` others. The range of the
-- child is tested as its offset and length together, so that its elements, which the Arrow C data
-- interface counts from its offset on, may still be too few.
pub record Covered (t : ModelType) (m : ModelArray) : Type 0 where
  pub list_size : ℕ
  pub positive : 0 < list_size
  pub data_type : t ≡ fixed_size_list true (pos list_size)
  pub offset : ℕ
  pub length : ℕ
  pub range : (m.parent.offset ≡ pos offset) × (m.parent.length ≡ pos length)
  pub child : ArrowArray
  pub first : first_child m.children ≡ some child
  pub child_offset : ℕ
  pub child_length : ℕ
  pub child_range : (child.offset ≡ pos child_offset) × (child.length ≡ pos child_length)
  pub fits : (offset + length) * list_size < usize_mod
  pub covers : (offset + length) * list_size ≤ child_offset + child_length
  pub values : 0 < child_length → has_buffer child.buffers 1 ≡ true

required_ok :
    (o l n : ℕ) {r : ℕ}
    → mul_some (checked_add o l) n ≡ some r
    → (r ≡ (o + l) * n) × (r < usize_mod)
unfolding checked_mul
required_ok o l n h = (ground (arith, h), ground (arith, h))

enough : (o l r : ℕ) → ltb (or_zero (checked_add o l)) r ≡ false → r ≤ o + l
enough o l r h = ground (arith, h)

-- A model array passes the tests only if its list size is positive, its length and offset and those
-- of its child are not negative, the elements up to its last list, without wrap-around, are no more
-- than the offset and length of the child together, and a child with elements has a values buffer.
pub check_model-Covered : (t : ModelType) (m : ModelArray) → check_model t m ≡ ok tt → Covered t m
unfolding check_model
check_model-Covered t m h =
    let (n, p, h1) = ok_of_bind (list_size_of t) _ h in
    let (a, q, h2) = ok_of_bind (check_parent m) _ h1 in
    let (c, r, h3) =
      ok_of_bind (ok_or (first_child m.children) (invalid "children[0] is NULL")) _ h2 in
    let (b, s, h4) = ok_of_bind (check_child c) _ h3 in
    let (k, u, h5) =
      ok_of_bind
        (ok_or (mul_some (checked_add a.0 a.1) n)
          (invalid "(offset + length) * list_size overflows usize"))
        _ h4 in
    let (d, z) = size_ok t p in
    let e = parent_ok m q in
    let (v, w, x) = child_ok c s in
    let (y, f) = required_ok a.0 a.1 n (some_of_ok_or _ _ u) in
    record {
      list_size = n;
      positive = z;
      data_type = d;
      offset = a.0;
      length = a.1;
      range = e;
      child = c;
      first = some_of_ok_or _ _ r;
      child_offset = b.0;
      child_length = b.1;
      child_range = (v, w);
      fits = omega (arith, y, f);
      covers = omega (arith, y, enough b.0 b.1 k (ground (arith, h5)));
      values = x;
    }
