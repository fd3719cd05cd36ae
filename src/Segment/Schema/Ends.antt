-- ===== src/Segment/Schema/Ends.antt =====
-- The walk of a foreign schema ends: the depth limit bounds the nesting of its calls.
use lance_c.Prelude.{
  ℕ, zero, suc, ◌+◌, ◌<◌, none, some, true, List, [], ◌∷◌, Result, ok, err, ◌≡◌, refl, ltb, arith,
  inl, inr, Bool-cases, is_some,
}
use lance_c.Ffi.LastError.{LanceError}
use lance_c.Segment.Schema.{
  Node, Heap, max_depth, check_node, Walk, after, visit_children, visit_dictionary, visit_node,
  check_pointer, enter_node, preflight, validate_model_schema,
}

after-is_some :
    (w : Walk) (k : List ℕ → Walk)
    → is_some w ≡ true
    → ((v : List ℕ) → is_some (k v) ≡ true)
    → is_some (after w k) ≡ true
after-is_some none k h l = h
after-is_some (some (err e)) k h l = refl
after-is_some (some (ok v)) k h l = l v

module _ (visit : ℕ → List ℕ → Walk)
    (ends : (p : ℕ) (v : List ℕ) → is_some (visit p v) ≡ true) where
  children-is_some :
      (array : ℕ → ℕ) (count index : ℕ) (visited : List ℕ)
      → is_some (visit_children visit array count index visited) ≡ true
  children-is_some array zero index visited = refl
  children-is_some array (suc count) index visited =
      after-is_some (visit (array index) visited) _ (ends (array index) visited)
        (children-is_some array count (suc index))

  dictionary-is_some :
      (p : ℕ) (visited : List ℕ) → is_some (visit_dictionary visit p visited) ≡ true
  dictionary-is_some p visited = ground (arith, ends p visited)

  node-is_some :
      (v : Node) (r : Result LanceError (ℕ × (ℕ → ℕ))) (visited : List ℕ)
      → is_some (visit_node visit v r visited) ≡ true
  node-is_some v (err e) visited = refl
  node-is_some v (ok (count, array)) visited =
      after-is_some (visit_children visit array count 0 visited) _
        (children-is_some array count 0 visited) (dictionary-is_some v.dictionary)

  enter-is_some :
      (heap : Heap) (r : Result LanceError (Unit {0})) (p : ℕ) (visited : List ℕ)
      → is_some (enter_node visit heap r p visited) ≡ true
  enter-is_some heap (err e) p visited = refl
  enter-is_some heap (ok u) p visited = node-is_some (heap p) (check_node (heap p)) (p ∷ visited)

too_deep :
    (visit : ℕ → List ℕ → Walk) (heap : Heap) (depth p : ℕ) (visited : List ℕ)
    → max_depth < depth
    → is_some (enter_node visit heap (check_pointer depth p visited) p visited) ≡ true
too_deep visit heap depth p visited h = ground (arith, h)

preflight-is_some :
    (fuel : ℕ) (heap : Heap) (depth p : ℕ) (visited : List ℕ)
    → 65 < fuel + depth
    → 0 < fuel
    → is_some (preflight fuel heap depth p visited) ≡ true
unfolding preflight
preflight-is_some zero heap depth p visited h k = ground (arith, k)
preflight-is_some (suc fuel) heap depth p visited h k = elim (Bool-cases (ltb max_depth depth)) [
  | inl e ↦ too_deep (preflight fuel heap (suc depth)) heap depth p visited (ground (arith, e))
  | inr e ↦
      enter-is_some (preflight fuel heap (suc depth))
        (λ q v.
          preflight-is_some fuel heap (suc depth) q v (ground (arith, h)) (ground (arith, h, e)))
        heap (check_pointer depth p visited) p visited
]

-- The walk of every schema ends, cyclic and malformed ones included: it passes or is refused.
pub validate_model_schema_ends :
    (heap : Heap) (schema : ℕ) → is_some (validate_model_schema heap schema) ≡ true
unfolding validate_model_schema
validate_model_schema_ends heap schema =
    preflight-is_some 66 heap 0 schema [] (omega arith) (omega arith)
