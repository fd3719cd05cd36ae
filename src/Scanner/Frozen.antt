-- ===== src/Scanner/Frozen.antt =====
-- The configuration that a scan in progress depends on cannot be changed under it.
use lance_c.Prelude.{
  ℕ, ℤ, String, Option, Bool, true, List, Result, ok, ok_or, not, is_some, ◌≡◌, sym, ap, arith,
  ok_of_bind, past_guard, ok_inj,
}
use lance_c.Ffi.LastError.{LanceError}
use lance_c.Scanner.Config.{External, Scanner, NearestMode, NprobesRange, ApproxMode, BlobHandling}
use lance_c.Scanner.Queries.{check_refine, set_refine_factor}
use lance_c.Scanner.Elements.{fts_in, fts_of}
use lance_c.Scanner.Nearest.{full_text_search}
use lance_c.Scanner.Calls
use lance_c.Scanner.Calls.{Setting, apply}
use lance_c.Scanner.Inversion.{Sets, nearest-Sets, nearest_batch-Sets, nearest_multivector-Sets}

-- The fields whose calls test that the scan has not started, with the flag itself.
pub record Guarded (x : External) : Type 0 where
  pub started : Bool
  pub dataset : x.Dataset
  pub batch_size_bytes : Option ℕ
  pub io_buffer_size : Option ℕ
  pub batch_readahead : Option ℕ
  pub fragment_readahead : Option ℕ
  pub target_parallelism : Option ℕ
  pub scan_in_order : Option Bool
  pub use_scalar_index : Option Bool
  pub strict_batch_size : Option Bool
  pub use_stats : Option Bool
  pub blob_handling : Option BlobHandling
  pub with_row_address : Bool
  pub include_deleted_rows : Bool
  pub row_addr_allowlist : Option (List ℕ)
  pub row_addr_blocklist : Option (List ℕ)
  pub additional_sql_filters : List String
  pub statistics_callback : Option x.Callback
  pub scalar_index_auto_selection : Bool
  pub scalar_index_segment : Option ℕ
  pub nprobes : NprobesRange
  pub approx_mode : Option ApproxMode
  pub query_parallelism : Option ℤ

module _ {x : External} where
  abbrev pub guarded : Scanner x → Guarded x
  guarded s = record {
    started = s.scan_started;
    dataset = s.dataset;
    batch_size_bytes = s.batch_size_bytes;
    io_buffer_size = s.io_buffer_size;
    batch_readahead = s.batch_readahead;
    fragment_readahead = s.fragment_readahead;
    target_parallelism = s.target_parallelism;
    scan_in_order = s.scan_in_order;
    use_scalar_index = s.use_scalar_index;
    strict_batch_size = s.strict_batch_size;
    use_stats = s.use_stats;
    blob_handling = s.blob_handling;
    with_row_address = s.with_row_address;
    include_deleted_rows = s.include_deleted_rows;
    row_addr_allowlist = s.row_addr_allowlist;
    row_addr_blocklist = s.row_addr_blocklist;
    additional_sql_filters = s.additional_sql_filters;
    statistics_callback = s.scan_statistics_callback;
    scalar_index_auto_selection = s.scalar_index_auto_selection;
    scalar_index_segment = s.scalar_index_segment;
    nprobes = s.nprobes;
    approx_mode = s.approx_mode;
    query_parallelism = s.query_parallelism;
  }

  Sets-guarded :
      {mode : NearestMode} {k : ℕ} {s t : Scanner x} → Sets mode k s t → guarded t ≡ guarded s
  Sets-guarded set = ap guarded set.result

  full_text_search-guarded :
      (q : Option (Result LanceError String)) (cs : Result LanceError (Option (List String)))
      (d : ℕ) (s t : Scanner x)
      → full_text_search q cs d s ≡ ok t
      → guarded t ≡ guarded s
  unfolding full_text_search
  full_text_search-guarded q cs d s t r =
      let (parsed, _, h1) = ok_of_bind (ok_or q _) _ r in
      let (_, h2) = past_guard (not (is_some s.nearest)) _ _ h1 in
      let (_, h3) = past_guard (not (is_some s.fts_context)) _ _ h2 in
      let (query_text, _, h4) = ok_of_bind parsed _ h3 in
      let (names, _, h5) = ok_of_bind cs _ h4 in
      let (fts, _, h6) = ok_of_bind (fts_in x (fts_of x query_text d) names) _ h5 in
      sym (ap guarded (ok_inj h6))

  refine_factor-guarded :
      (n : ℕ) (s t : Scanner x) → set_refine_factor n s ≡ ok t → guarded t ≡ guarded s
  unfolding set_refine_factor
  refine_factor-guarded n s t r =
      let (_, _, h1) = ok_of_bind (check_refine s.nearest s n) _ r in sym (ap guarded (ok_inj h1))

  pub apply-guarded :
      (c : Setting x) (s t : Scanner x)
      → s.scan_started ≡ true
      → apply c s ≡ ok t
      → guarded t ≡ guarded s
  unfolding apply
  apply-guarded (Calls.nearest c d n e k) s t h r = Sets-guarded (nearest-Sets c d n e k s t r)
  apply-guarded (Calls.nearest_batch c d n m e k) s t h r =
      let (set, _, _) = nearest_batch-Sets c d n m e k s t r in Sets-guarded set
  apply-guarded (Calls.nearest_multivector c d n m e k) s t h r =
      Sets-guarded (nearest_multivector-Sets c d n m e k s t r)
  apply-guarded (Calls.full_text_search q cs d) s t h r = full_text_search-guarded q cs d s t r
  apply-guarded (Calls.refine_factor n) s t h r = refine_factor-guarded n s t r
  apply-guarded _ s t h r = ground arith
