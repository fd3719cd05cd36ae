-- ===== src/Segment/Model/Borrow.antt =====
-- `borrow_model_array` on the caller's slot, and `fixed_size_list_model` on what it returns.
use lance_c.Prelude.{
  ℕ, ℤ, Option, none, some, Bool, Result, ok, err, ◌>>=◌, ◌>>◌, guard, ok_or, ◌==◌, natural,
}
use lance_c.Ffi.LastError.{LanceError}
use lance_c.Scanner.Config.{invalid}
use lance_c.Scanner.Limits.{checked_mul}
use lance_c.Segment.Schema.{Heap, Walk, validate_model_schema}
use lance_c.Segment.Model.{Field, ModelArray, check_model}

-- A `FixedSizeList` without nulls that starts at offset 0.
pub record Model (V : Type 0) : Type 0 where
  pub len : ℕ
  pub value_length : ℤ
  pub float32 : Bool
  pub values : V

-- an imported `FixedSizeListArray`
pub record ListView : Type 0 where
  pub len : ℕ
  pub offset : ℕ
  pub value_length : ℤ
  pub null_count : ℕ
  pub float32 : Bool

-- What arrow-rs does with the C structs: `Payload` is a struct with its buffers, `empty` the released
-- one, `import` is `from_ffi` with `make_array`, and `export` is `to_ffi`.
pub record Arrow : Type 1 where
  pub Payload : Type 0
  pub Imported : Type 0
  pub Values : Type 0
  pub header : Payload → ModelArray
  pub empty : Payload
  pub read_field : Heap → ℕ → Result LanceError Field
  pub import : Payload → Field → Result LanceError Imported
  pub export : Imported → Result LanceError Payload
  pub view : Imported → Option ListView
  pub slice : Imported → ℕ → ℕ → Values
  pub nulls : Values → ℕ
  pub try_new : Bool → ℤ → Values → Result LanceError (Model Values)

-- a walk that passed; it never runs out of fuel
abbrev pub passed : Walk → Result LanceError (Unit {0})
passed none = err (invalid "nesting depth exceeds the supported maximum of 64")
passed (some (err e)) = err e
passed (some (ok visited)) = ok tt

module _ (x : Arrow) where
  unfoldable pub field_of : Heap → ℕ → Result LanceError Field
  field_of heap schema = do passed (validate_model_schema heap schema); x.read_field heap schema

  -- the tests that leave the caller's array where it is
  unfoldable pub checked : Heap → ℕ → x.Payload → Result LanceError Field
  checked heap schema array = do
    field ← field_of heap schema
    check_model field.data_type (x.header array)
    ok field

  unfoldable pub import_model_array : Heap → ℕ → x.Payload → Field → Result LanceError x.Imported
  import_model_array heap schema array field = do
    passed (validate_model_schema heap schema)
    x.import array field

  abbrev pub replaced :
      x.Imported → Result LanceError x.Payload → Result LanceError x.Imported × Option x.Payload
  replaced model (err e) = (err e, some x.empty)
  replaced model (ok replacement) = (ok model, some replacement)

  abbrev pub taken : Result LanceError x.Imported → Result LanceError x.Imported × Option x.Payload
  taken (err e) = (err e, some x.empty)
  taken (ok model) = replaced model (x.export model)

  abbrev pub borrow_checked :
      Heap
      → ℕ
      → x.Payload
      → Result LanceError Field
      → Result LanceError x.Imported × Option x.Payload
  borrow_checked heap schema array (err e) = (err e, some array)
  borrow_checked heap schema array (ok field) = taken (import_model_array heap schema array field)

  -- The model, and what is in the caller's slot afterwards; `none` is a NULL slot.
  unfoldable pub borrow_model_array :
      Heap → ℕ → Option x.Payload → Result LanceError x.Imported × Option x.Payload
  borrow_model_array heap schema none = (err (invalid "must not be NULL"), none)
  borrow_model_array heap schema (some array) =
      borrow_checked heap schema array (checked heap schema array)

  unfoldable pub fixed_size_list_model : x.Imported → Result LanceError (Model x.Values)
  fixed_size_list_model array = do
    model ← ok_or (x.view array) (invalid "must be FixedSizeList<Float32>")
    guard (model.null_count == 0) (invalid "must not contain NULL lists")
    list_size ← ok_or (natural model.value_length) (invalid "has invalid negative list_size")
    values_offset ←
        ok_or (checked_mul model.offset list_size) (invalid "offset * list_size overflows usize")
    values_len ←
        ok_or (checked_mul model.len list_size) (invalid "length * list_size overflows usize")
    let values = x.slice array values_offset values_len
    guard (x.nulls values == 0) (invalid "values must not contain NULLs")
    x.try_new model.float32 model.value_length values
