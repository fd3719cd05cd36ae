-- ===== src/Scanner/Calls.antt =====
-- Every configuration call, as one type.
use lance_c.Prelude.{ℕ, ℤ, String, Option, Bool, List, Result}
use lance_c.Ffi.LastError.{LanceError}
use lance_c.Scanner.Config.{External, Scanner}
use lance_c.Scanner.Setters
use lance_c.Scanner.Setters.{Slice}
use lance_c.Scanner.Queries
use lance_c.Scanner.Nearest

pub data Setting (x : External) : Type 0 where
  limit : ℤ → Setting x
  offset : ℤ → Setting x
  batch_size : ℤ → Setting x
  batch_size_bytes : ℕ → Setting x
  io_buffer_size : ℕ → Setting x
  batch_readahead : ℕ → Setting x
  fragment_readahead : ℕ → Setting x
  target_parallelism : ℕ → Setting x
  scan_in_order : Bool → Setting x
  use_scalar_index : Bool → Setting x
  strict_batch_size : Bool → Setting x
  use_stats : Bool → Setting x
  blob_handling : ℤ → Setting x
  row_id : Bool → Setting x
  row_address : Bool → Setting x
  include_deleted_rows : Bool → Setting x
  fragment_ids : Slice → Setting x
  row_addr_allowlist : Slice → Setting x
  row_addr_blocklist : Slice → Setting x
  substrait_filter : Option (List ℕ) → Setting x
  additional_sql_filter : Result LanceError (Option String) → Setting x
  statistics_callback : Option x.Callback → Setting x
  scalar_index_auto_selection : Bool → Setting x
  scalar_index_segment : Option ℕ → Setting x
  refine_factor : ℕ → Setting x
  ef : ℕ → Setting x
  distance_range : Option x.Float → Option x.Float → Setting x
  nprobes : ℕ → Setting x
  minimum_nprobes : ℕ → Setting x
  maximum_nprobes : ℕ → Setting x
  approx_mode : ℤ → Setting x
  query_parallelism : ℤ → Setting x
  metric : ℤ → Setting x
  use_index : Bool → Setting x
  prefilter : Bool → Setting x
  index_segments : Slice → Setting x
  nearest : Option (Result LanceError String) → Option x.Buffer → ℕ → ℤ → ℕ → Setting x
  nearest_batch : Option (Result LanceError String) → Option x.Buffer → ℕ → ℕ → ℤ → ℕ → Setting x
  nearest_multivector :
      Option (Result LanceError String) → Option x.Buffer → ℕ → ℕ → ℤ → ℕ → Setting x
  full_text_search :
      Option (Result LanceError String) → Result LanceError (Option (List String)) → ℕ → Setting x
  fts_query_context : Option x.FtsContext → Setting x
  fts_index_segments : Slice → Setting x

module _ {x : External} where
  unfoldable pub apply : Setting x → Scanner x → Result LanceError (Scanner x)
  unfolding Setters.set_limit Setters.set_offset Setters.set_batch_size Setters.set_batch_size_bytes
      Setters.set_io_buffer_size Setters.set_batch_readahead Setters.set_fragment_readahead
      Setters.set_target_parallelism Setters.set_scan_in_order Setters.set_use_scalar_index
      Setters.set_strict_batch_size Setters.set_use_stats Setters.set_blob_handling
      Setters.with_row_id Setters.with_row_address Setters.set_include_deleted_rows
      Queries.set_fragment_ids Queries.set_row_addr_allowlist Queries.set_row_addr_blocklist
      Queries.set_substrait_filter Queries.additional_sql_filter Queries.set_statistics_callback
      Queries.set_scalar_index_auto_selection Queries.set_scalar_index_segment
      Queries.set_refine_factor Queries.set_ef Queries.set_distance_range Queries.set_nprobes
      Queries.set_minimum_nprobes Queries.set_maximum_nprobes Queries.set_approx_mode
      Queries.set_query_parallelism Queries.set_metric Queries.set_use_index Queries.set_prefilter
      Queries.set_index_segments Nearest.nearest Nearest.nearest_batch Nearest.nearest_multivector
      Nearest.full_text_search Nearest.set_fts_query_context Nearest.set_fts_index_segments
  apply (limit n) = Setters.set_limit n
  apply (offset n) = Setters.set_offset n
  apply (batch_size n) = Setters.set_batch_size n
  apply (batch_size_bytes n) = Setters.set_batch_size_bytes n
  apply (io_buffer_size n) = Setters.set_io_buffer_size n
  apply (batch_readahead n) = Setters.set_batch_readahead n
  apply (fragment_readahead n) = Setters.set_fragment_readahead n
  apply (target_parallelism n) = Setters.set_target_parallelism n
  apply (scan_in_order b) = Setters.set_scan_in_order b
  apply (use_scalar_index b) = Setters.set_use_scalar_index b
  apply (strict_batch_size b) = Setters.set_strict_batch_size b
  apply (use_stats b) = Setters.set_use_stats b
  apply (blob_handling n) = Setters.set_blob_handling n
  apply (row_id b) = Setters.with_row_id b
  apply (row_address b) = Setters.with_row_address b
  apply (include_deleted_rows b) = Setters.set_include_deleted_rows b
  apply (fragment_ids ids) = Queries.set_fragment_ids ids
  apply (row_addr_allowlist ids) = Queries.set_row_addr_allowlist ids
  apply (row_addr_blocklist ids) = Queries.set_row_addr_blocklist ids
  apply (substrait_filter bytes) = Queries.set_substrait_filter bytes
  apply (additional_sql_filter sql) = Queries.additional_sql_filter sql
  apply (statistics_callback c) = Queries.set_statistics_callback c
  apply (scalar_index_auto_selection b) = Queries.set_scalar_index_auto_selection b
  apply (scalar_index_segment u) = Queries.set_scalar_index_segment u
  apply (refine_factor n) = Queries.set_refine_factor n
  apply (ef n) = Queries.set_ef n
  apply (distance_range lower upper) = Queries.set_distance_range lower upper
  apply (nprobes n) = Queries.set_nprobes n
  apply (minimum_nprobes n) = Queries.set_minimum_nprobes n
  apply (maximum_nprobes n) = Queries.set_maximum_nprobes n
  apply (approx_mode n) = Queries.set_approx_mode n
  apply (query_parallelism n) = Queries.set_query_parallelism n
  apply (metric n) = Queries.set_metric n
  apply (use_index b) = Queries.set_use_index b
  apply (prefilter b) = Queries.set_prefilter b
  apply (index_segments us) = Queries.set_index_segments us
  apply (nearest c d n t k) = Nearest.nearest c d n t k
  apply (nearest_batch c d n m t k) = Nearest.nearest_batch c d n m t k
  apply (nearest_multivector c d n m t k) = Nearest.nearest_multivector c d n m t k
  apply (full_text_search q cs d) = Nearest.full_text_search q cs d
  apply (fts_query_context c) = Nearest.set_fts_query_context c
  apply (fts_index_segments us) = Nearest.set_fts_index_segments us
