-- ===== src/Segment/Model.antt =====
-- Trained models as Arrow arrays of C (`borrow_model_array`): the tests before arrow-rs imports one.
pub mod Bounds
pub mod Borrow
pub mod Handover
use lance_c.Prelude.{
  or_zero, ℕ, zero, suc, ◌+◌, ◌*◌, ℤ, pos, negsuc, natural, Option, none, some, Bool, true, false,
  not, Result, ok, err, ◌>>=◌, ◌>>◌, guard, ok_or, ◌==◌, ltb, leb, ◌&&◌, ◌||◌, if◌then◌else◌,
  is_some, Text,
}
use lance_c.Ffi.LastError.{LanceError}
use lance_c.Scanner.Config.{invalid}
use lance_c.Scanner.Limits.{checked_mul}
use lance_c.Selection.{checked_add}
use lance_c.Helpers.{Map}

-- `FixedSizeList`, with whether its items are Float32 and its `list_size`, or another type
pub data ModelType : Type 0 where
  fixed_size_list : Bool → ℤ → ModelType
  other : ModelType

-- an Arrow field: its type and its metadata
pub record Field : Type 0 where
  pub data_type : ModelType
  pub metadata : Map Text

-- `FFI_ArrowArray`; of a buffer only whether its pointer is there.
pub record ArrowArray : Type 0 where
  pub released : Bool
  pub length : ℤ
  pub offset : ℤ
  pub null_count : ℤ
  pub n_buffers : ℤ
  pub n_children : ℤ
  pub buffers : Option (ℕ → Bool)
  pub dictionary : Bool

-- An array with its `children` pointer, and the first child behind it.
pub record ModelArray : Type 0 where
  pub parent : ArrowArray
  pub children : Option (Option ArrowArray)

abbrev pub is_number : ℤ → ℕ → Bool
is_number (pos n) m = n == m
is_number (negsuc n) m = false

-- from -1, which stands for a count that is not known, to the length
abbrev pub is_null_count : ℤ → ℕ → Bool
is_null_count (pos n) length = leb n length
is_null_count (negsuc zero) length = true
is_null_count (negsuc (suc n)) length = false

abbrev pub is_positive : ℤ → Bool
is_positive (pos zero) = false
is_positive (pos (suc n)) = true
is_positive (negsuc n) = false

abbrev pub has_buffer : Option (ℕ → Bool) → ℕ → Bool
has_buffer none i = false
has_buffer (some there) i = there i

-- `validate_common`, with the offset and the length that it has found not to be negative
unfoldable pub validate_common : ArrowArray → Result LanceError (ℕ × ℕ)
validate_common a = do
  length ← ok_or (natural a.length) (invalid "length and offset must be non-negative")
  offset ← ok_or (natural a.offset) (invalid "length and offset must be non-negative")
  guard (is_null_count a.null_count length) (invalid "null_count is invalid for length")
  guard (is_some (natural a.n_buffers) && is_some (natural a.n_children))
      (invalid "n_buffers and n_children must be non-negative")
  ok (offset, length)

-- the type of a model: its list size
unfoldable pub list_size_of : ModelType → Result LanceError ℕ
list_size_of other = err (invalid "schema must describe FixedSizeList")
list_size_of (fixed_size_list float32 list_size) = do
  guard (is_positive list_size && float32)
      (invalid "must describe FixedSizeList<Float32> with positive list_size")
  ok_or (natural list_size) (invalid "list_size does not fit usize")

unfoldable pub check_parent : ModelArray → Result LanceError (ℕ × ℕ)
unfolding validate_common
check_parent m = do
  guard (not m.parent.released) (invalid "is uninitialized or already released")
  range ← validate_common m.parent
  guard (is_number m.parent.n_buffers 1 && is_some m.parent.buffers)
      (invalid "FixedSizeList must have one buffer and a non-NULL buffers pointer")
  guard (is_number m.parent.n_children 1 && is_some m.children)
      (invalid "FixedSizeList must have one child and a non-NULL children pointer")
  guard (not m.parent.dictionary) (invalid "FixedSizeList dictionary must be NULL")
  guard (not (is_positive m.parent.null_count) || has_buffer m.parent.buffers 0)
      (invalid "has a null_count but no validity buffer")
  ok range

abbrev pub first_child : Option (Option ArrowArray) → Option ArrowArray
first_child none = none
first_child (some child) = child

unfoldable pub check_child : ArrowArray → Result LanceError (ℕ × ℕ)
unfolding validate_common
check_child c = do
  guard (not c.released) (invalid "children[0] is uninitialized or already released")
  range ← validate_common c
  guard (is_number c.n_buffers 2 && is_some c.buffers)
      (invalid "children[0] Float32 must have two buffers and a non-NULL buffers pointer")
  guard (is_number c.n_children 0 && not c.dictionary)
      (invalid "children[0] must have no children or dictionary")
  guard (not (is_positive c.null_count) || has_buffer c.buffers 0)
      (invalid "children[0] has a null_count but no validity buffer")
  guard ((range.1 == 0) || has_buffer c.buffers 1)
      (invalid "children[0] has a length but a NULL values buffer")
  ok range

abbrev pub mul_some : Option ℕ → ℕ → Option ℕ
mul_some none b = none
mul_some (some a) b = checked_mul a b

-- All that `borrow_model_array` tests before it takes the array out of the caller's slot.
unfoldable pub check_model : ModelType → ModelArray → Result LanceError (Unit {0})
unfolding list_size_of check_parent check_child
check_model data_type m = do
  list_size ← list_size_of data_type
  parent ← check_parent m
  c ← ok_or (first_child m.children) (invalid "children[0] is NULL")
  child ← check_child c
  required ←
      ok_or (mul_some (checked_add parent.0 parent.1) list_size)
        (invalid "(offset + length) * list_size overflows usize")
  guard (not (ltb (or_zero (checked_add child.0 child.1)) required))
      (invalid "children[0] does not cover the parent range")
