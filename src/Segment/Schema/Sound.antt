-- ===== src/Segment/Schema/Sound.antt =====
-- A foreign schema that passes the walk is safe to read, down to its last node.
use lance_c.Prelude.{
  ℕ, zero, suc, ◌+◌, ◌≤◌, ◌<◌, pos, Option, none, some, List, [], ◌∷◌, Result, ok, err, ◌≡◌, ◌≢◌,
  refl, sym, ◌∙◌, subst, arith,
}
use native.Mathlib.Nat.{add-zero, add-suc, zero-add, suc-add}
use lance_c.Ffi.LastError.{LanceError}
use lance_c.Segment.Schema.{
  Heap, max_depth, check_node, Walk, after, visit_children, visit_dictionary, visit_node,
  check_pointer, enter_node, preflight, validate_model_schema,
}
use lance_c.Segment.Schema.Readable.{Readable, check_node-Readable}

-- `q` lies `n` levels below `p`, by children and dictionaries.
pub data Below (heap : Heap) : ℕ → ℕ → ℕ → Type 0 where
  here : {p : ℕ} → Below heap 0 p p
  child :
      {n p q : ℕ} (count : ℕ) (array : ℕ → ℕ) (i : ℕ)
      → (heap p).n_children ≡ pos count
      → (heap p).children ≡ some array
      → i < count
      → Below heap n (array i) q
      → Below heap (suc n) p q
  dictionary :
      {n p q : ℕ}
      → (heap p).dictionary ≢ 0
      → Below heap n (heap p).dictionary q
      → Below heap (suc n) p q

after_ok :
    (w : Walk) (k : List ℕ → Walk) {v : List ℕ}
    → after w k ≡ some (ok v)
    → (u : List ℕ) × (w ≡ some (ok u)) × (k u ≡ some (ok v))
after_ok none k h = cc
after_ok (some (err e)) k h = cc
after_ok (some (ok u)) k h = (u, refl, h)

-- a walk of the node at `p` that passed
abbrev Passes : (ℕ → List ℕ → Walk) → ℕ → Type 0
Passes visit p = (u : List ℕ) × (v : List ℕ) × (visit p u ≡ some (ok v))

module _ (visit : ℕ → List ℕ → Walk) where
  each_child :
      (array : ℕ → ℕ) (count index i : ℕ) (u : List ℕ) {v : List ℕ}
      → visit_children visit array count index u ≡ some (ok v)
      → i < count
      → Passes visit (array (index + i))
  each_child array zero index i u h l = ground (arith, l)
  each_child array (suc count) index zero u h l =
      let (v, p, _) = after_ok (visit (array index) u) _ h in (u, v, rw (add-zero index) p)
  each_child array (suc count) index (suc i) u h l =
      let (v, _, q) = after_ok (visit (array index) u) _ h in
      rw (add-suc index i, sym (suc-add index i))
        (each_child array count (suc index) i v q (omega (arith, l)))

  the_dictionary :
      (p : ℕ) (u : List ℕ) {v : List ℕ}
      → visit_dictionary visit p u ≡ some (ok v)
      → p ≢ 0
      → visit p u ≡ some (ok v)
  the_dictionary p u h l = ground (arith, h, l)

some_inj : {a b : ℕ → ℕ} → Path (Option (ℕ → ℕ)) (some a) (some b) → a ≡ b
some_inj h = cc

pos_inj : {a b : ℕ} → pos a ≡ pos b → a ≡ b
pos_inj h = cc

-- What holds of a node that a walk has entered and passed.
record Passed (visit : ℕ → List ℕ → Walk) (heap : Heap) (p : ℕ) : Type 0 where
  node : (count : ℕ) × (array : ℕ → ℕ) × Readable (heap p) count array
  child_passes :
      (count : ℕ) (array : ℕ → ℕ) (i : ℕ)
      → (heap p).n_children ≡ pos count
      → (heap p).children ≡ some array
      → i < count
      → Passes visit (array i)
  dictionary_passes : (heap p).dictionary ≢ 0 → Passes visit (heap p).dictionary

visit_node-Passed :
    (visit : ℕ → List ℕ → Walk) (heap : Heap) (p : ℕ) (r : Result LanceError (ℕ × (ℕ → ℕ)))
    (u : List ℕ) {v : List ℕ}
    → check_node (heap p) ≡ r
    → visit_node visit (heap p) r u ≡ some (ok v)
    → Passed visit heap p
visit_node-Passed visit heap p (err e) u c h = cc
visit_node-Passed visit heap p (ok (count, array)) u c h =
    let ok_node = check_node-Readable (heap p) count array c in
    let (w, k, l) = after_ok (visit_children visit array count 0 u) _ h in
    record {
      node = (count, array, ok_node);
      child_passes = λ n a i q r s.
          let m : count ≡ n = pos_inj (sym ok_node.n_children ∙ q) in
          let b : array ≡ a = some_inj (sym (ok_node.children (omega (arith, m, s))) ∙ r) in
          subst (λ f. Passes visit (f i)) b
            (subst (λ j. Passes visit (array j)) (zero-add i)
              (each_child visit array count 0 i u k (omega (arith, m, s))));
      dictionary_passes = λ q. (w, _, the_dictionary visit (heap p).dictionary w l q);
    }

enter_node-Passed :
    (visit : ℕ → List ℕ → Walk) (heap : Heap) (r : Result LanceError (Unit {0})) (p : ℕ)
    (u : List ℕ) {v : List ℕ}
    → enter_node visit heap r p u ≡ some (ok v)
    → (r ≡ ok tt) × Passed visit heap p
enter_node-Passed visit heap (err e) p u h = cc
enter_node-Passed visit heap (ok t) p u h =
    (refl, visit_node-Passed visit heap p (check_node (heap p)) (p ∷ u) refl h)

pointer_ok :
    (depth p : ℕ) (u : List ℕ) → check_pointer depth p u ≡ ok tt → (depth ≤ max_depth) × (p ≢ 0)
pointer_ok depth p u h = (ground (arith, h), ground (arith, h))

entered :
    (fuel : ℕ) (heap : Heap) (depth p : ℕ) (u : List ℕ) {v : List ℕ}
    → preflight (suc fuel) heap depth p u ≡ some (ok v)
    → (depth ≤ max_depth) × (p ≢ 0) × Passed (preflight fuel heap (suc depth)) heap p
unfolding preflight
entered fuel heap depth p u h =
    let (g, passed) =
      enter_node-Passed (preflight fuel heap (suc depth)) heap (check_pointer depth p u) p u h in
    let (d, z) = pointer_ok depth p u g in (d, z, passed)

descend :
    (fuel : ℕ) (heap : Heap) (depth p : ℕ) (u : List ℕ) {v : List ℕ} {n q : ℕ}
    → preflight fuel heap depth p u ≡ some (ok v)
    → Below heap n p q
    → (depth + n ≤ max_depth)
      × (q ≢ 0)
      × ((count : ℕ) × (array : ℕ → ℕ) × Readable (heap q) count array)
unfolding preflight
descend zero heap depth p u h b = cc
descend (suc fuel) heap depth p u h here =
    let (d, z, k) = entered fuel heap depth p u h in (omega (arith, d), z, k.node)
descend (suc fuel) heap depth p u h (child count array i e f l b) =
    let (_, _, k) = entered fuel heap depth p u h in
    let (v, w, m) = k.child_passes count array i e f l in
    let (x, y, z) = descend fuel heap (suc depth) (array i) v m b in (omega (arith, x), y, z)
descend (suc fuel) heap depth p u h (dictionary e b) =
    let (_, _, k) = entered fuel heap depth p u h in
    let (v, w, m) = k.dictionary_passes e in
    let (x, y, z) = descend fuel heap (suc depth) (heap p).dictionary v m b in
    (omega (arith, x), y, z)

-- When a schema passes, each node below it, through children and dictionaries, is at most 64 levels
-- down (so no pointers form a cycle), its pointer is not NULL, it is not released, its format and
-- name are UTF-8, and its children are an array that is there.
pub schema-Readable :
    (heap : Heap) (schema : ℕ) {v : List ℕ} {n q : ℕ}
    → validate_model_schema heap schema ≡ some (ok v)
    → Below heap n schema q
    → (n ≤ 64) × (q ≢ 0) × ((count : ℕ) × (array : ℕ → ℕ) × Readable (heap q) count array)
unfolding validate_model_schema
schema-Readable heap schema h b =
    let (d, z, r) = descend 66 heap 0 schema [] h b in (omega (arith, d), z, r)
