-- ===== src/Segment/Model/Handover.antt =====
-- What `borrow_model_array` hands to arrow-rs, and what it leaves in the caller's slot.
use lance_c.Prelude.{
  List, ◌≤◌, ◌≢◌, ◌⊎◌, inl, inr, ℕ, Option, none, some, Result, ok, err, ◌≡◌, refl, ok_of_bind,
  ok_inj, ap, ◌∙◌, sym, subst,
}
use lance_c.Ffi.LastError.{LanceError}
use lance_c.Segment.Schema.{Heap, Walk, validate_model_schema}
use lance_c.Segment.Model.{Field, check_model}
use lance_c.Segment.Schema.Readable.{Readable}
use lance_c.Segment.Schema.Sound.{Below, schema-Readable}
use lance_c.Segment.Model.Bounds.{Covered, check_model-Covered}
use lance_c.Segment.Model.Borrow.{
  Arrow, passed, field_of, checked, import_model_array, replaced, taken, borrow_checked,
  borrow_model_array,
}

module _ (x : Arrow) (heap : Heap) (schema : ℕ) where
  -- An array and a field that arrow-rs may be handed: the nodes of the schema are readable, the field is
  -- what arrow-rs read from them, and the array has passed the tests on its shape and range.
  pub record Fit (array : x.Payload) (field : Field) : Type 0 where
    pub nodes :
        {n q : ℕ}
        → Below heap n schema q
        → (n ≤ 64) × (q ≢ 0) × ((count : ℕ) × (children : ℕ → ℕ) × Readable (heap q) count children)
    pub read : x.read_field heap schema ≡ ok field
    pub range : Covered field.data_type (x.header array)

  -- The result of a borrow from this slot, with the slot after it.
  pub data Borrowed (slot : Option x.Payload)
      : Result LanceError x.Imported × Option x.Payload → Type 0 where
    untouched :
        (e : LanceError)
        → (slot ≡ none)
          ⊎ ((array : x.Payload) × (slot ≡ some array) × (checked x heap schema array ≡ err e))
        → Borrowed slot (err e, slot)
    lost :
        (e : LanceError) (array : x.Payload) (field : Field)
        → slot ≡ some array
        → Fit array field
        → (x.import array field ≡ err e)
          ⊎ ((model : x.Imported) × (x.import array field ≡ ok model) × (x.export model ≡ err e))
        → Borrowed slot (err e, some x.empty)
    lent :
        (model : x.Imported) (array replacement : x.Payload) (field : Field)
        → slot ≡ some array
        → Fit array field
        → x.import array field ≡ ok model
        → x.export model ≡ ok replacement
        → Borrowed slot (ok model, some replacement)

  passed_ok : (w : Walk) {u : Unit {0}} → passed w ≡ ok u → (v : List ℕ) × (w ≡ some (ok v))
  passed_ok none h = cc
  passed_ok (some (err e)) h = cc
  passed_ok (some (ok v)) h = (v, refl)

  checked-Fit :
      (array : x.Payload) (field : Field)
      → checked x heap schema array ≡ ok field
      → Fit array field × (import_model_array x heap schema array field ≡ x.import array field)
  unfolding checked field_of import_model_array
  checked-Fit array field h =
      let (f, p, h1) = ok_of_bind (field_of x heap schema) _ h in
      let (_, q, h2) = ok_of_bind (check_model f.data_type (x.header array)) _ h1 in
      let (_, w, r) = ok_of_bind (passed (validate_model_schema heap schema)) _ p in
      let (_, v) = passed_ok (validate_model_schema heap schema) w in
      let e = ok_inj h2 in
      (
        record {
          nodes = λ b. schema-Readable heap schema v b;
          read = r ∙ ap (λ k. ok k) e;
          range =
              check_model-Covered field.data_type (x.header array)
                (subst (λ k. check_model k.data_type (x.header array) ≡ ok tt) e q);
        },
        rw w refl,
      )

  module _ (slot : Option x.Payload) (array : x.Payload) (field : Field) (here : slot ≡ some array)
      (fit : Fit array field) where
    exported :
        (model : x.Imported) (r : Result LanceError x.Payload)
        → x.import array field ≡ ok model
        → x.export model ≡ r
        → Borrowed slot (replaced x model r)
    exported model (err e) i h = lost e array field here fit (inr (model, i, h))
    exported model (ok replacement) i h = lent model array replacement field here fit i h

    imported :
        (r : Result LanceError x.Imported) → x.import array field ≡ r → Borrowed slot (taken x r)
    imported (err e) i = lost e array field here fit (inl i)
    imported (ok model) i = exported model (x.export model) i refl

  tested :
      (slot : Option x.Payload) (array : x.Payload) (r : Result LanceError Field)
      → slot ≡ some array
      → checked x heap schema array ≡ r
      → Borrowed slot (borrow_checked x heap schema array r)
  tested slot array (err e) here h =
      subst (λ a. Borrowed slot (err e, a)) here (untouched e (inr (array, here, h)))
  tested slot array (ok field) here h =
      let (fit, same) = checked-Fit array field h in
      subst (λ r. Borrowed slot (taken x r)) (sym same)
        (imported slot array field here fit (x.import array field) refl)

  -- However a borrow ends, arrow-rs is handed the caller's array only if its schema is readable, node
  -- by node and 64 levels deep at most, and it has passed the tests on its shape and range for that field. If the
  -- slot is NULL or a test fails, the slot is as it was; if arrow-rs then fails to import the array or
  -- to export it again, the slot holds the released array; and else the model is what was imported,
  -- and the slot holds its export.
  pub borrow_model_array-Borrowed :
      (slot : Option x.Payload) → Borrowed slot (borrow_model_array x heap schema slot)
  unfolding borrow_model_array
  borrow_model_array-Borrowed none = untouched _ (inl refl)
  borrow_model_array-Borrowed (some array) =
      tested (some array) array (checked x heap schema array) refl refl
