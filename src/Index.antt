-- ===== src/Index.antt =====
-- index.rs: the codes of index types and metrics.
pub mod Codes
pub mod Params
pub mod Lifecycle
pub mod Accepted
mod Examples
use lance_c.Prelude.{ℕ, ℤ, pos, negsuc, Result, ok, err, ◌==◌, if◌then◌else◌}
use lance_c.Ffi.LastError.{LanceError}
use lance_c.Scanner.Config.{invalid}

pub data ScalarType : Type 0 where
  btree : ScalarType
  bitmap : ScalarType
  label_list : ScalarType
  inverted : ScalarType

pub data VectorType : Type 0 where
  ivf_flat : VectorType
  ivf_sq : VectorType
  ivf_pq : VectorType
  ivf_hnsw_sq : VectorType
  ivf_hnsw_pq : VectorType
  ivf_hnsw_flat : VectorType

pub data Metric : Type 0 where
  l2 : Metric
  cosine : Metric
  dot : Metric
  hamming : Metric

-- the `#[repr(i32)]` discriminants
abbrev pub scalar_code : ScalarType → ℕ
scalar_code btree = 1
scalar_code bitmap = 2
scalar_code label_list = 3
scalar_code inverted = 4

abbrev pub vector_code : VectorType → ℕ
vector_code ivf_flat = 101
vector_code ivf_sq = 102
vector_code ivf_pq = 103
vector_code ivf_hnsw_sq = 104
vector_code ivf_hnsw_pq = 105
vector_code ivf_hnsw_flat = 106

abbrev pub metric_code : Metric → ℕ
metric_code l2 = 0
metric_code cosine = 1
metric_code dot = 2
metric_code hamming = 3

unfoldable pub scalar_from_c : ℤ → Result LanceError ScalarType
scalar_from_c (negsuc n) = err (invalid "invalid scalar index type")
scalar_from_c (pos n) =
    if n == 1
    then ok btree
    else if n == 2
    then ok bitmap
    else if n == 3
    then ok label_list
    else if n == 4
    then ok inverted
    else err (invalid "invalid scalar index type")

unfoldable pub vector_from_c : ℤ → Result LanceError VectorType
vector_from_c (negsuc n) = err (invalid "invalid vector index type")
vector_from_c (pos n) =
    if n == 101
    then ok ivf_flat
    else if n == 102
    then ok ivf_sq
    else if n == 103
    then ok ivf_pq
    else if n == 104
    then ok ivf_hnsw_sq
    else if n == 105
    then ok ivf_hnsw_pq
    else if n == 106
    then ok ivf_hnsw_flat
    else err (invalid "invalid vector index type")

unfoldable pub metric_from_c : ℤ → Result LanceError Metric
metric_from_c (negsuc n) = err (invalid "metric must be one of 0, 1, 2, or 3")
metric_from_c (pos n) =
    if n == 0
    then ok l2
    else if n == 1
    then ok cosine
    else if n == 2
    then ok dot
    else if n == 3
    then ok hamming
    else err (invalid "metric must be one of 0, 1, 2, or 3")
