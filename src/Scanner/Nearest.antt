-- ===== src/Scanner/Nearest.antt =====
-- The calls that give the scanner its one query: a vector, a batch of vectors, a multi-vector, or a
-- full text.
use lance_c.Prelude.{
  ℕ, ℤ, ◌/◌, String, Option, none, some, Bool, List, Result, ok, ◌>>=◌, ◌>>◌, guard, ok_or, not,
  ◌||◌, ◌==◌, ltb, is_some, if◌then◌else◌,
}
use lance_c.Ffi.LastError.{LanceError}
use lance_c.Scanner.Config.{
  External, Scanner, NearestQuery, NearestMode, single, multi_vector, batch, invalid,
}
use lance_c.Scanner.Limits.{
  validate_batch_candidates, batch_query_value_count, checked_mul, max_batch_queries,
}
use lance_c.Scanner.Setters.{Slice, not_started}
use lance_c.Scanner.Queries.{parse_segment_uuids, slice_is_empty}
use lance_c.Scanner.Elements.{
  batch_element, multi_vector_element, fits_batch, fits_multi_vector, fits_isize, i32_max,
  decode_query_values, finite_values, validate_query, fts_of, fts_in,
}

module _ {x : External} where
  -- a query with no bounds on the distance
  abbrev pub query_of : NearestMode → String → x.Array → ℕ → NearestQuery x
  query_of mode column query k = record {
    mode = mode;
    column = column;
    query = query;
    k = k;
    lower_bound = none;
    upper_bound = none;
  }

  abbrev pub has_fts : Scanner x → Bool
  has_fts s = is_some s.fts_query || is_some s.fts_context

  -- `scanner_nearest_inner`; the first three arguments may be NULL
  unfoldable pub nearest :
      Option (Result LanceError String)
      → Option x.Buffer
      → ℕ
      → ℤ
      → ℕ
      → Scanner x
      → Result LanceError (Scanner x)
  nearest column query_data query_len element_type k s = do
    parsed ← ok_or column (invalid "scanner, column, and query_data must not be NULL")
    data' ← ok_or query_data (invalid "scanner, column, and query_data must not be NULL")
    guard (not (k == 0)) (invalid "k must be > 0")
    guard (not (has_fts s))
        (invalid "cannot call nearest after full_text_search or attaching an FTS query context")
    name ← parsed
    query ← decode_query_values x data' query_len element_type
    ok (record s { nearest = some (query_of single name query k) })

  -- `nearest_batch_inner`
  unfoldable pub nearest_batch :
      Option (Result LanceError String)
      → Option x.Buffer
      → ℕ
      → ℕ
      → ℤ
      → ℕ
      → Scanner x
      → Result LanceError (Scanner x)
  nearest_batch column query_data dimension num_queries element_type k s = do
    parsed ← ok_or column (invalid "scanner, column, and query_data must not be NULL")
    data' ← ok_or query_data (invalid "scanner, column, and query_data must not be NULL")
    not_started s (invalid "nearest_batch must be set before the scan starts")
    guard (not ((dimension == 0) || ltb i32_max dimension || (k == 0)))
        (invalid "dimension and k must be positive; dimension must fit int32")
    guard (not ((num_queries == 0) || ltb max_batch_queries num_queries))
        (invalid "num_queries must be in 1..=128")
    guard (not (has_fts s)) (invalid "batch nearest and full-text search are mutually exclusive")
    guard (not (is_some s.limit || is_some s.offset))
        (invalid "batch nearest does not support global limit/offset")
    validate_batch_candidates num_queries k s.refine_factor
    (element, width) ← batch_element element_type
    count ← batch_query_value_count dimension num_queries width
    name ← parsed
    guard (not (is_some (x.field s.dataset "query_index")))
        (invalid "batch nearest reserves the dataset column name query_index")
    field ← ok_or (x.field s.dataset name) (invalid "batch vector column does not exist")
    guard (fits_batch field element dimension)
        (invalid "batch column must be FixedSizeList of the query's element type and dimension")
    values ← decode_query_values x data' count element_type
    guard (finite_values x element values)
        (invalid "batch query values must be finite and non-null")
    query ← x.matrix element dimension values
    ok (record s { nearest = some (query_of (batch num_queries) name query k) })

  -- `nearest_multivector_inner`
  unfoldable pub nearest_multivector :
      Option (Result LanceError String)
      → Option x.Buffer
      → ℕ
      → ℕ
      → ℤ
      → ℕ
      → Scanner x
      → Result LanceError (Scanner x)
  nearest_multivector column query_data dimension num_vectors element_type k s = do
    parsed ← ok_or column (invalid "scanner, column, and query_data must not be NULL")
    data' ← ok_or query_data (invalid "scanner, column, and query_data must not be NULL")
    guard (not ((dimension == 0) || ltb i32_max dimension || (num_vectors == 0) || (k == 0)))
        (invalid "dimension, num_vectors, and k must be positive; dimension must fit int32")
    guard (not (ltb 128 num_vectors || ltb (100000 / k) num_vectors))
        (invalid "multi-vector query exceeds 128 subvectors or 100000 subvector-candidates")
    (element, width) ← multi_vector_element element_type
    count ← fits_isize (checked_mul dimension num_vectors) width
    guard (not (has_fts s)) (invalid "nearest and full-text search are mutually exclusive")
    name ← parsed
    field ← ok_or (x.field s.dataset name) (invalid "multi-vector column does not exist")
    fits_multi_vector field element dimension
    values ← decode_query_values x data' count element_type
    validate_query x values
    query ← x.matrix element dimension values
    ok (record s { nearest = some (query_of multi_vector name query k) })

  -- `fts_inner`
  unfoldable pub full_text_search :
      Option (Result LanceError String)
      → Result LanceError (Option (List String))
      → ℕ
      → Scanner x
      → Result LanceError (Scanner x)
  full_text_search query columns max_fuzzy_distance s = do
    parsed ← ok_or query (invalid "scanner and query must not be NULL")
    guard (not (is_some s.nearest))
        (invalid "cannot call full_text_search after nearest; they are mutually exclusive")
    guard (not (is_some s.fts_context))
        (invalid "cannot call full_text_search after attaching an FTS query context")
    query_text ← parsed
    cols ← columns
    fts ← fts_in x (fts_of x query_text max_fuzzy_distance) cols
    ok (record s { fts_query = some fts })

  -- `scanner_set_fts_query_context_inner`
  unfoldable pub set_fts_query_context :
      Option x.FtsContext → Scanner x → Result LanceError (Scanner x)
  set_fts_query_context context s = do
    given ← ok_or context (invalid "context must not be NULL")
    guard (not (is_some s.nearest)) (invalid "cannot attach an FTS query context after nearest")
    guard (not (is_some s.fts_query))
        (invalid "cannot attach an FTS query context after full_text_search")
    guard (x.same_snapshot given s.dataset)
        (invalid "FTS query context and scanner must originate from the same dataset snapshot")
    ok (record s { fts_context = some given })

  -- `scanner_set_fts_index_segments_inner`
  unfoldable pub set_fts_index_segments : Slice → Scanner x → Result LanceError (Scanner x)
  unfolding parse_segment_uuids
  set_fts_index_segments segments s =
      if slice_is_empty segments then ok (record s { fts_index_segments = none }) else do
        uuids ← parse_segment_uuids segments
        ok (record s { fts_index_segments = some uuids })
