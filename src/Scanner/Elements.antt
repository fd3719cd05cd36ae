-- ===== src/Scanner/Elements.antt =====
-- The values of a vector query: their element types, their size and what is copied of them.
use lance_c.Prelude.{
  ℕ, zero, suc, ℤ, pos, ◌%◌, ◌/◌, String, Option, none, some, Bool, true, false, List, [], ◌∷◌,
  Result, ok, err, ◌>>=◌, ◌>>◌, guard, ◌&&◌, ◌==◌, ltb, leb, if◌then◌else◌,
}
use lance_c.Ffi.LastError.{LanceError}
use lance_c.Scanner.Config.{
  External, DataType, float32, float16, float64, uint8, int8, FieldType, fixed_size_list,
  list_of_fixed, invalid,
}

-- the element types of a batch query, with their widths
abbrev pub batch_element : ℤ → Result LanceError (DataType × ℕ)
batch_element (pos zero) = ok (float32, 4)
batch_element (pos (suc zero)) = ok (float16, 2)
batch_element (pos (suc (suc zero))) = ok (float64, 8)
batch_element (pos (suc (suc (suc zero)))) = ok (uint8, 1)
batch_element (pos (suc (suc (suc (suc zero))))) = ok (int8, 1)
batch_element _ =
    err (invalid "batch element_type must be float16, float32, float64, uint8, or int8")

abbrev pub multi_vector_element : ℤ → Result LanceError (DataType × ℕ)
multi_vector_element (pos zero) = ok (float32, 4)
multi_vector_element (pos (suc zero)) = ok (float16, 2)
multi_vector_element (pos (suc (suc zero))) = ok (float64, 8)
multi_vector_element _ = err (invalid "multi-vector queries require float16, float32, or float64")

abbrev pub same_type : Option DataType → DataType → Bool
same_type (some float32) float32 = true
same_type (some float16) float16 = true
same_type (some float64) float64 = true
same_type (some uint8) uint8 = true
same_type (some int8) int8 = true
same_type _ _ = false

abbrev pub fits_batch : FieldType → DataType → ℕ → Bool
fits_batch (fixed_size_list element dim) t dimension = (dim == dimension) && same_type element t
fits_batch _ t dimension = false

abbrev pub fits_multi_vector : FieldType → DataType → ℕ → Result LanceError (Unit {0})
fits_multi_vector (list_of_fixed false element dim) t dimension =
    guard ((dim == dimension) && same_type element t)
      (invalid "multi-vector dimension/type mismatch")
fits_multi_vector _ t dimension =
    err (invalid "multi-vector column must be List of non-nullable FixedSizeList")

-- `isize::MAX`
abbrev pub isize_max : ℕ
isize_max = 9223372036854775807

abbrev pub fits_isize : Option ℕ → ℕ → Result LanceError ℕ
fits_isize none width = err (invalid "query matrix byte size overflows")
fits_isize (some count) width = do
  guard (leb count (isize_max / width)) (invalid "query matrix byte size overflows")
  ok count

-- `i32::MAX`
abbrev pub i32_max : ℕ
i32_max = 2147483647

-- The element types that the C API numbers, with their alignment.
abbrev pub element_of : ℤ → Result LanceError (DataType × ℕ)
element_of (pos zero) = ok (float32, 4)
element_of (pos (suc zero)) = ok (float16, 2)
element_of (pos (suc (suc zero))) = ok (float64, 8)
element_of (pos (suc (suc (suc zero)))) = ok (uint8, 1)
element_of (pos (suc (suc (suc (suc zero))))) = ok (int8, 1)
element_of _ = err (invalid "invalid element_type")

-- `decode_query_values`
unfoldable pub decode_query_values : (x : External) → x.Buffer → ℕ → ℤ → Result LanceError x.Array
decode_query_values x query_data query_len element_type = do
  (element, alignment) ← element_of element_type
  guard (x.address query_data % alignment == 0)
      (invalid "query_data must be aligned for its element_type")
  ok (x.copy element query_data query_len)

-- integers are finite; of floats every value is looked at
abbrev pub finite_values : (x : External) → DataType → x.Array → Bool
finite_values x uint8 values = true
finite_values x int8 values = true
finite_values x _ values = x.all_finite values

-- `multivector::validate_query`, at the float types that reach it
unfoldable pub validate_query : (x : External) → x.Array → Result LanceError (Unit {0})
validate_query x values =
    guard (x.all_finite values)
      (x.datafusion_error "multi-vector query must contain only finite, non-null elements")

abbrev pub fts_of : (x : External) → String → ℕ → x.FtsQuery
fts_of x query_text distance =
    if ltb 0 distance then x.fts_fuzzy query_text distance else x.fts_new query_text

abbrev pub fts_in :
    (x : External) → x.FtsQuery → Option (List String) → Result LanceError x.FtsQuery
fts_in x fts none = ok fts
fts_in x fts (some []) = ok fts
fts_in x fts (some (c ∷ cs)) = x.fts_with_columns fts (c ∷ cs)
