-- ===== src/Segment/Schema/Readable.antt =====
-- What the tests on one node of a foreign schema establish.
use lance_c.Prelude.{
  ℕ, String, zero, suc, ◌≤◌, ◌<◌, pos, natural, natural-some, some_of_ok_or, Option, none, some,
  false, not, ok, ok_of_bind, past_guard, ok_inj, ◌≡◌, refl, ap, ◌∙◌, subst, ltb, ◌||◌, arith,
  ok_or,
}
use lance_c.Scanner.Config.{invalid}
use lance_c.Helpers.{is_null, CString, null, utf8, bytes}
use lance_c.Segment.Schema.{Node, max_pointers, is_bytes, child_array, check_node}

-- What arrow-rs relies on when it reads a node with `count` children.
pub record Readable (v : Node) (count : ℕ) (array : ℕ → ℕ) : Type 0 where
  pub live : v.released ≡ false
  pub format : (s : String) × (v.format ≡ utf8 s)
  pub name : is_bytes v.name ≡ false
  pub n_children : v.n_children ≡ pos count
  pub bound : count ≤ max_pointers
  pub children : 0 < count → v.children ≡ some array

is_utf8 : (c : CString) → is_null c ≡ false → is_bytes c ≡ false → (s : String) × (c ≡ utf8 s)
is_utf8 null h k = cc
is_utf8 (utf8 s) h k = (s, refl)
is_utf8 bytes h k = cc

found :
    (count : ℕ) (children : Option (ℕ → ℕ)) {array : ℕ → ℕ}
    → child_array count children ≡ ok array
    → 0 < count
    → children ≡ some array
found zero c h l = ground (arith, l)
found (suc n) (some a) h l = ap some (ok_inj h)
found (suc n) none h l = cc

pub check_node-Readable :
    (v : Node) (count : ℕ) (array : ℕ → ℕ)
    → check_node v ≡ ok (count, array)
    → Readable v count array
unfolding check_node
check_node-Readable v count array h =
    let (a, h1) = past_guard (not (v.released || is_null v.format)) _ _ h in
    let (b, h2) = past_guard (not (is_bytes v.format)) _ _ h1 in
    let (c, h3) = past_guard (not (is_bytes v.name)) _ _ h2 in
    let (n, d, h4) =
      ok_of_bind (ok_or (natural v.n_children) (invalid "n_children must be non-negative")) _ h3 in
    let (e, h5) = past_guard (not (ltb max_pointers n)) _ _ h4 in
    let (f, g, h6) = ok_of_bind (child_array n v.children) _ h5 in
    let same = ok_inj h6 in
    let m : n ≡ count = ap (λ r. r.0) same in
    record {
      live = ground (arith, a);
      format = is_utf8 v.format (ground (arith, a)) (ground (arith, b));
      name = ground (arith, c);
      n_children = natural-some v.n_children (some_of_ok_or _ _ d) ∙ ap pos m;
      bound = ground (arith, e, m);
      children =
          found count v.children
            (subst (λ k. child_array k v.children ≡ ok array) m (g ∙ ap (λ r. ok (r.1)) same));
    }
