-- ===== src/Scanner/Plan.antt =====
-- The calls on Lance's scanner that a configuration becomes, in order, with the checks between them:
-- the part of `LanceScanner::build_scanner` that reads nothing back.
use lance_c.Prelude.{
  ℕ, ℤ, ◌/◌, Option, none, some, Bool, true, false, not, ◌&&◌, ◌||◌, ◌==◌, ltb, is_some, any, List,
  [], ◌∷◌, ◌++◌, Result, ok, err, if◌then◌else◌, String,
}
use lance_c.Ffi.LastError.{LanceError}
use lance_c.Scanner.Config.{
  External, Scanner, NearestQuery, NearestMode, multi_vector, batch, ApproxMode, BlobHandling,
  MetricType, hamming, l2, invalid,
}
use lance_c.Scanner.Limits.{validate_batch_candidates, or_one}

-- the methods of `lance::dataset::scanner::Scanner` that configure it
pub data BuilderCall (x : External) : Type 0 where
  project : List String → BuilderCall x
  blob_handling : BlobHandling → BuilderCall x
  limit : Option ℤ → Option ℤ → BuilderCall x
  batch_size : ℕ → BuilderCall x
  batch_size_bytes : ℕ → BuilderCall x
  strict_batch_size : Bool → BuilderCall x
  io_buffer_size : ℕ → BuilderCall x
  batch_readahead : ℕ → BuilderCall x
  fragment_readahead : ℕ → BuilderCall x
  target_parallelism : ℕ → BuilderCall x
  scan_in_order : Bool → BuilderCall x
  use_scalar_index : Bool → BuilderCall x
  use_stats : Bool → BuilderCall x
  with_row_id with_row_address include_deleted_rows : BuilderCall x
  with_fragments : List ℕ → BuilderCall x
  with_row_addr_prefilter : Option (List ℕ) → Option (List ℕ) → BuilderCall x
  prefilter : BuilderCall x
  nearest : String → x.Array → ℕ → BuilderCall x
  distance_range : Option x.Float → Option x.Float → BuilderCall x
  minimum_nprobes : ℕ → BuilderCall x
  maximum_nprobes : ℕ → BuilderCall x
  approx_mode : ApproxMode → BuilderCall x
  query_parallelism : ℤ → BuilderCall x
  refine : ℕ → BuilderCall x
  ef : ℕ → BuilderCall x
  distance_metric : MetricType → BuilderCall x
  use_index : Bool → BuilderCall x
  with_index_segments : List ℕ → BuilderCall x
  full_text_search : x.FtsQuery → BuilderCall x
  filter_substrait : List ℕ → BuilderCall x
  filter : String → BuilderCall x
  scan_stats_callback : x.Callback → BuilderCall x

pub data Step (x : External) : Type 0 where
  call : BuilderCall x → Step x
  reject : LanceError → Step x

-- the fragments that are there and were asked for
abbrev pub select_ids : List ℕ → List ℕ → List ℕ
select_ids ids [] = []
select_ids ids (f ∷ fs) =
    let rest = select_ids ids fs in if any (λ i. i == f) ids then f ∷ rest else rest

-- `multivector::MAX_QUERY_VECTOR_CANDIDATES`
abbrev pub max_query_vector_candidates : ℕ
max_query_vector_candidates = 100000

abbrev pub is_hamming : Option MetricType → Bool
is_hamming (some hamming) = true
is_hamming _ = false

abbrev pub concat : {A : Type 0} → List (List A) → List A
concat [] = []
concat (l ∷ ls) = l ++ concat ls

module _ {A : Type 0} {x : External} where
  abbrev pub opt : Option A → (A → BuilderCall x) → List (Step x)
  opt none f = []
  opt (some a) f = call (f a) ∷ []

module _ {x : External} where
  abbrev pub flag : Bool → BuilderCall x → List (Step x)
  flag true c = call c ∷ []
  flag false c = []

  abbrev pub reject_if : Bool → LanceError → List (Step x)
  reject_if true e = reject e ∷ []
  reject_if false e = []

  abbrev pub is_multi_vector : Option (NearestQuery x) → Bool
  is_multi_vector none = false
  is_multi_vector (some q) = elim (q.mode) [ multi_vector ↦ true | _ ↦ false ]

  abbrev pub rejected : Result LanceError (Unit {0}) → List (Step x)
  rejected (ok _) = []
  rejected (err e) = reject e ∷ []

  -- the candidates of a batch query are checked again
  abbrev pub mode_check : NearestMode → ℕ → Option ℕ → List (Step x)
  mode_check (batch n) k refine' = rejected (validate_batch_candidates n k refine')
  mode_check _ k refine' = []

  unfoldable pub batch_check : Option (NearestQuery x) → Option ℕ → List (Step x)
  batch_check none refine' = []
  batch_check (some q) refine' = mode_check q.mode q.k refine'

  abbrev pub window_parts : Scanner x → List (List (Step x))
  window_parts s =
      flag (is_some s.limit || is_some s.offset) (limit s.limit s.offset)
      ∷ flag ((is_some s.limit || is_some s.offset) && is_multi_vector s.nearest) (limit none none)
      ∷ []

  abbrev pub window : Scanner x → List (Step x)
  window s = concat (window_parts s)

  unfoldable pub option_parts : Scanner x → List (List (Step x))
  unfolding batch_check
  option_parts s =
      opt s.columns project
      ∷ opt s.blob_handling blob_handling
      ∷ batch_check s.nearest s.refine_factor
      ∷ window s
      ∷ opt s.batch_size batch_size
      ∷ opt s.batch_size_bytes batch_size_bytes
      ∷ opt s.strict_batch_size strict_batch_size
      ∷ opt s.io_buffer_size io_buffer_size
      ∷ opt s.batch_readahead batch_readahead
      ∷ opt s.fragment_readahead fragment_readahead
      ∷ opt s.target_parallelism target_parallelism
      ∷ opt s.scan_in_order scan_in_order
      ∷ opt s.use_scalar_index use_scalar_index
      ∷ opt s.use_stats use_stats
      ∷ flag s.with_row_id with_row_id
      ∷ flag s.with_row_address with_row_address
      ∷ flag s.include_deleted_rows include_deleted_rows
      ∷ []

  unfoldable pub options : Scanner x → List (Step x)
  unfolding option_parts
  options s = concat (option_parts s)

  -- `apply_fragment_filter`
  unfoldable pub fragment_filter : List ℕ → Scanner x → List (Step x)
  fragment_filter all s = opt s.fragment_ids (λ ids. with_fragments (select_ids ids all))

  abbrev pub fragments_last : Scanner x → Bool
  fragments_last s = is_some s.nearest && not s.prefilter

  -- whether `row_addr_mask` is `Some`
  abbrev pub has_mask : Scanner x → Bool
  has_mask s = is_some s.row_addr_allowlist || is_some s.row_addr_blocklist

  unfoldable pub conflict_parts : Scanner x → List (List (Step x))
  conflict_parts s =
      reject_if (is_some s.index_segments && not (is_some s.nearest))
        (invalid "index_segments requires nearest() to be configured")
      ∷ reject_if (is_some s.fts_index_segments && not (is_some s.fts_context))
          (invalid "fts_index_segments requires an FTS query context")
      ∷ reject_if (is_some s.fts_context && is_some s.fragment_ids)
          (invalid "fragment_ids cannot be combined with an FTS query context")
      ∷ reject_if (has_mask s && is_some s.scalar_index_segment)
          (invalid "row address allowlist/blocklist cannot be combined with scalar_index_segment")
      ∷ []

  unfoldable pub conflicts : Scanner x → List (Step x)
  unfolding conflict_parts
  conflicts s = concat (conflict_parts s)

  abbrev pub mask_parts : Scanner x → List (List (Step x))
  mask_parts s =
      flag (has_mask s) (with_row_addr_prefilter s.row_addr_allowlist s.row_addr_blocklist)
      ∷ flag s.prefilter prefilter
      ∷ []

  abbrev pub mask : Scanner x → List (Step x)
  mask s = concat (mask_parts s)

  -- the metric: the chosen one, or for a multi-vector the default of both its paths
  abbrev pub metric_calls : Scanner x → Option MetricType → List (Step x)
  metric_calls s (some m) = call (distance_metric m) ∷ []
  metric_calls s none = flag (is_multi_vector s.nearest) (distance_metric l2)

  abbrev pub multi_vector_parts : Scanner x → NearestQuery x → List (List (Step x))
  multi_vector_parts s q =
      reject_if (is_hamming s.metric_override)
        (invalid "multi-vector queries support only l2, cosine, and dot metrics")
      ∷ reject_if
          ((or_one s.refine_factor == 0)
            || ltb (max_query_vector_candidates / or_one s.refine_factor) q.k)
          (invalid "multi-vector refined candidate count must be in 1..=100000")
      ∷ (call (refine (or_one s.refine_factor)) ∷ [])
      ∷ []

  abbrev pub refine_calls : Scanner x → NearestQuery x → List (Step x)
  refine_calls s q =
      if is_multi_vector s.nearest
      then concat (multi_vector_parts s q)
      else opt s.refine_factor refine

  abbrev pub nearest_parts : Scanner x → NearestQuery x → List (List (Step x))
  nearest_parts s q =
      (call (nearest q.column q.query q.k) ∷ call (distance_range q.lower_bound q.upper_bound) ∷ [])
      ∷ opt s.nprobes.minimum minimum_nprobes
      ∷ opt s.nprobes.maximum maximum_nprobes
      ∷ opt s.approx_mode approx_mode
      ∷ opt s.query_parallelism query_parallelism
      ∷ refine_calls s q
      ∷ opt s.ef ef
      ∷ metric_calls s s.metric_override
      ∷ opt s.use_index use_index
      ∷ opt s.index_segments with_index_segments
      ∷ []

  abbrev pub nearest_calls : Scanner x → Option (NearestQuery x) → List (Step x)
  nearest_calls s none = []
  nearest_calls s (some q) = concat (nearest_parts s q)

  -- all that comes before the FTS context and the filters
  unfoldable pub first_parts : List ℕ → Scanner x → List (List (Step x))
  unfolding options fragment_filter conflicts
  first_parts all s =
      options s
      ∷ (if fragments_last s then [] else fragment_filter all s)
      ∷ conflicts s
      ∷ mask s
      ∷ nearest_calls s s.nearest
      ∷ (if fragments_last s then fragment_filter all s else [])
      ∷ opt s.fts_query full_text_search
      ∷ []

  unfoldable pub first_calls : List ℕ → Scanner x → List (Step x)
  unfolding first_parts
  first_calls all s = concat (first_parts all s)
