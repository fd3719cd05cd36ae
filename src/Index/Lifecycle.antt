-- ===== src/Index/Lifecycle.antt =====
-- index.rs: creating, dropping, counting and listing the indices of a dataset.
pub mod Segments
use lance_c.Prelude.{
  ℕ, suc, ◌+◌, ◌*◌, ℤ, String, Option, none, some, Bool, true, false, not, List, [], ◌∷◌, ◌++◌,
  length, Result, ok, err, ◌>>=◌, ◌>>◌, guard, ok_or, ◌==◌, ltb, ◌&&◌, is_some, if◌then◌else◌, Text,
  text,
}
use package.text.Mathlib.Text.{◌==◌ as str_eq}
use lance_c.Ffi.Outcome.{Act, pure, done}
use lance_c.Ffi.LastError.{LanceError, LastError, ErrorKind}
use lance_c.Scanner.Config.{invalid}
use lance_c.Helpers.{is_null, CString, parse_c_string, required_string, null}
use lance_c.Dataset.{Lock, Mutation, with_mut}
use lance_c.Index.{ScalarType, scalar_from_c}
use lance_c.Index.Params.{VectorParams, Lance, CoreParams, build_vector_params}

-- `IndexMetadata` of Lance; a UUID is its 16 bytes.
pub record IndexEntry : Type 0 where
  pub name : String
  pub uuid : List ℕ
  pub fields : List ℤ
  pub system : Bool

abbrev pub not_found : LanceError
not_found = record { kind = ErrorKind.index_not_found; display = done (text "name") }

-- what is asked of Lance
pub data IndexJob (x : Lance) : Type 0 where
  create_scalar : String → ScalarType → Option String → Option String → Bool → IndexJob x
  create_vector : String → Option String → CoreParams x → Bool → IndexJob x
  drop_index : String → IndexJob x

module _ {x : Lance} where
  unfoldable pub create_scalar_request :
      CString → CString → ℤ → CString → Bool → Result LanceError (IndexJob x)
  create_scalar_request column index_name index_type params_json replace = do
    guard (not (is_null column)) (invalid "dataset and column must not be NULL")
    column ← parse_c_string column
    column ← ok_or column (invalid "column must not be empty")
    name ← parse_c_string index_name
    params ← parse_c_string params_json
    scalar_type ← scalar_from_c index_type
    ok (create_scalar column scalar_type name params replace)

  unfoldable pub create_vector_request :
      CString → CString → Option VectorParams → Bool → Result LanceError (IndexJob x)
  create_vector_request column index_name params replace = do
    guard (not (is_null column)) (invalid "dataset, column, and params must not be NULL")
    params ← ok_or params (invalid "dataset, column, and params must not be NULL")
    column ← parse_c_string column
    column ← ok_or column (invalid "column must not be empty")
    name ← parse_c_string index_name
    core ← build_vector_params x params none none
    ok (create_vector column name core replace)

  unfoldable pub drop_request : CString → Result LanceError (IndexJob x)
  drop_request name = do
    guard (not (is_null name)) (invalid "dataset and name must not be NULL")
    name ← parse_c_string name
    name ← ok_or name (invalid "dataset and name must not be NULL")
    ok (drop_index name)

  -- A request that was refused leaves the dataset alone; `change` is what Lance does to the working
  -- copy.
  abbrev pub applied :
      {D : Type 0}
      → (IndexJob x → Mutation D (Result LanceError (Unit {0})))
      → Result LanceError (IndexJob x)
      → Act LastError (Lock D) (Result LanceError (Unit {0}))
  applied change (err e) = pure (err e)
  applied change (ok job) = with_mut (change job)

-- the user indices, and the segments of one of them
abbrev pub user_indices : List IndexEntry → List IndexEntry
user_indices [] = []
user_indices (i ∷ is) = let rest = user_indices is in if i.system then rest else i ∷ rest

abbrev pub named : String → List IndexEntry → List IndexEntry
named name [] = []
named name (i ∷ is) =
    let rest = named name is in if not i.system && str_eq i.name name then i ∷ rest else rest

unfoldable pub index_count : List IndexEntry → ℕ
index_count indices = length (user_indices indices)

-- The name of a logical index; an empty one is not refused.
abbrev pub index_name_of : CString → Result LanceError String
index_name_of name = do
  guard (not (is_null name)) (invalid "dataset and index_name must not be NULL")
  name ← parse_c_string name
  ok_or name (invalid "index_name must not be empty")

unfoldable pub index_segment_count :
    Result LanceError (List IndexEntry) → CString → Result LanceError ℕ
index_segment_count indices index_name = do
  name ← index_name_of index_name
  indices ← indices
  let count = length (named name indices)
  guard (not (count == 0)) not_found
  ok count

-- each UUID at its place, 16 bytes apart, in a buffer
abbrev pub uuid_bytes : List IndexEntry → List ℕ
uuid_bytes [] = []
uuid_bytes (i ∷ is) = i.uuid ++ uuid_bytes is

-- The bytes that are written to the beginning of `out_uuids`, and the count for `out_count`.
unfoldable pub list_segments :
    Result LanceError (List IndexEntry) → CString → Bool → ℕ → Result LanceError (List ℕ × ℕ)
list_segments indices index_name out_uuids capacity = do
  guard out_uuids (invalid "dataset, index_name, and out_uuids must not be NULL")
  name ← index_name_of index_name
  indices ← indices
  let segments = named name indices
  guard (not (length segments == 0)) not_found
  guard (not (ltb capacity (length segments))) (invalid "out_uuids capacity too small for segments")
  ok (uuid_bytes segments, length segments)

-- `prewarm_colliding_segments`: of an index whose name is also a column, the segments left to Lance.
-- `open_and_prewarm` tells of a segment on another field whether it was a vector index.
abbrev pub left_to_sdk :
    (ℤ → List ℕ → Result LanceError Bool)
    → (ℤ → Bool)
    → IndexEntry
    → List ℤ
    → Result LanceError Bool
left_to_sdk open_and_prewarm is_named i [] = ok true
left_to_sdk open_and_prewarm is_named i (field ∷ fields) =
    let opened = open_and_prewarm field i.uuid in
    if is_named field then ok true else (do prewarmed ← opened; ok (not prewarmed))

unfoldable pub prewarm_colliding_segments :
    (ℤ → List ℕ → Result LanceError Bool)
    → (ℤ → Bool)
    → List IndexEntry
    → Result LanceError (List (List ℕ))
prewarm_colliding_segments open_and_prewarm is_named [] = ok []
prewarm_colliding_segments open_and_prewarm is_named (i ∷ is) = do
  left ← left_to_sdk open_and_prewarm is_named i i.fields
  rest ← prewarm_colliding_segments open_and_prewarm is_named is
  ok (if left then i.uuid ∷ rest else rest)
