-- ===== src/Scanner/Queries.antt =====
-- The configuration calls for row sets, filters, index segments, vector queries and text queries.
use lance_c.Prelude.{
  ℕ, zero, suc, ℤ, pos, negsuc, String, Option, none, some, Bool, true, false, List, [], ◌∷◌, ◌++◌,
  Result, ok, err, ◌>>=◌, ◌>>◌, guard, ok_or, not, ◌||◌, ◌==◌, ltb, any,
}
use text.Mathlib.Text.{◌==◌ as str_eq}
use lance_c.Ffi.LastError.{LanceError}
use lance_c.Scanner.Config.{
  External, Scanner, NearestQuery, NearestMode, single, batch, ApproxMode, fast, normal, accurate,
  MetricType, l2, cosine, dot, hamming, invalid,
}
use lance_c.Scanner.Nprobes.{exact, with_minimum, with_maximum}
use lance_c.Scanner.Limits.{validate_batch_candidates}
use lance_c.Scanner.Setters.{Slice, null, buffer, read_slice, not_started}

abbrev pub approx_mode_of : ℤ → Result LanceError ApproxMode
approx_mode_of (pos zero) = ok fast
approx_mode_of (pos (suc zero)) = ok normal
approx_mode_of (pos (suc (suc zero))) = ok accurate
approx_mode_of _ = err (invalid "approx_mode must be 0 (FAST), 1 (NORMAL), or 2 (ACCURATE)")

abbrev pub metric_of : ℤ → Result LanceError MetricType
metric_of (pos zero) = ok l2
metric_of (pos (suc zero)) = ok cosine
metric_of (pos (suc (suc zero))) = ok dot
metric_of (pos (suc (suc (suc zero)))) = ok hamming
metric_of _ = err (invalid "invalid metric")

-- `query_parallelism < -1`
abbrev pub below_minus_one : ℤ → Bool
below_minus_one (pos n) = false
below_minus_one (negsuc n) = ltb 0 n

abbrev pub has_duplicate : List ℕ → Bool
has_duplicate [] = false
has_duplicate (u ∷ us) = any (λ v. v == u) us || has_duplicate us

-- `parse_segment_uuids`
unfoldable pub parse_segment_uuids : Slice → Result LanceError (List ℕ)
parse_segment_uuids segments = do
  uuids ← read_slice segments (invalid "segment_uuids is NULL but len is greater than 0")
  guard (not (has_duplicate uuids)) (invalid "segment_uuids contains duplicate UUIDs")
  ok uuids

abbrev pub slice_is_empty : Slice → Bool
slice_is_empty (null len) = len == 0
slice_is_empty (buffer []) = true
slice_is_empty (buffer (_ ∷ _)) = false

abbrev pub finite_bound : (x : External) → Option x.Float → Bool
finite_bound x none = true
finite_bound x (some v) = x.is_finite v

abbrev pub bounds_in_order : (x : External) → Option x.Float → Option x.Float → Bool
bounds_in_order x (some lower) (some upper) = not (x.float_ge lower upper)
bounds_in_order x _ _ = true

abbrev pub is_single : NearestMode → Bool
is_single single = true
is_single _ = false

abbrev pub nonempty : List ℕ → Option (List ℕ)
nonempty [] = none
nonempty (u ∷ us) = some (u ∷ us)

module _ {x : External} where
  unfoldable pub set_fragment_ids : Slice → Scanner x → Result LanceError (Scanner x)
  set_fragment_ids ids s = do
    items ← read_slice ids (invalid "ids is NULL but len > 0")
    ok (record s { fragment_ids = some items })

  unfoldable pub set_row_addr_allowlist : Slice → Scanner x → Result LanceError (Scanner x)
  set_row_addr_allowlist ids s = do
    items ← read_slice ids (invalid "row_ids is NULL but len > 0")
    not_started s (invalid "row_addr_allowlist must be set before the scan starts")
    ok (record s { row_addr_allowlist = some items })

  unfoldable pub set_row_addr_blocklist : Slice → Scanner x → Result LanceError (Scanner x)
  set_row_addr_blocklist ids s = do
    items ← read_slice ids (invalid "row_ids is NULL but len > 0")
    not_started s (invalid "row_addr_blocklist must be set before the scan starts")
    ok (record s { row_addr_blocklist = some items })

  unfoldable pub set_substrait_filter : Option (List ℕ) → Scanner x → Result LanceError (Scanner x)
  set_substrait_filter none s = err (invalid "bytes is NULL")
  set_substrait_filter (some []) s = err (invalid "Substrait filter bytes must be non-empty")
  set_substrait_filter (some (b ∷ bs)) s = ok (record s { substrait_filter = some (b ∷ bs) })

  -- the argument is what `parse_c_string` made of the pointer
  unfoldable pub additional_sql_filter :
      Result LanceError (Option String) → Scanner x → Result LanceError (Scanner x)
  additional_sql_filter parsed s = do
    given ← parsed
    filter ← ok_or given (invalid "filter must not be NULL")
    guard (not (str_eq filter "")) (invalid "additional SQL filter must be non-empty")
    guard (not s.scan_started) (invalid "additional SQL filter must be set before the scan starts")
    ok (record s { additional_sql_filters = s.additional_sql_filters ++ filter ∷ [] })

  unfoldable pub set_statistics_callback :
      Option x.Callback → Scanner x → Result LanceError (Scanner x)
  set_statistics_callback callback s = do
    given ← ok_or callback (invalid "statistics callback is NULL")
    guard (not s.scan_started)
        (invalid "statistics callback must be registered before the scan starts")
    ok (record s { scan_statistics_callback = some given })

  unfoldable pub set_scalar_index_auto_selection : Bool → Scanner x → Result LanceError (Scanner x)
  set_scalar_index_auto_selection enabled s = do
    not_started s (invalid "scalar_index_auto_selection must be set before the scan starts")
    ok (record s { scalar_index_auto_selection = enabled })

  -- NULL clears the selection; sixteen bytes always make a UUID
  unfoldable pub set_scalar_index_segment : Option ℕ → Scanner x → Result LanceError (Scanner x)
  set_scalar_index_segment segment s = do
    not_started s (invalid "scalar_index_segment must be set before the scan starts")
    ok (record s { scalar_index_segment = segment })

  -- a refine factor is checked against a batch query that is already there
  abbrev pub check_refine : Option (NearestQuery x) → Scanner x → ℕ → Result LanceError (Unit {0})
  check_refine none s value = ok tt
  check_refine (some q) s value = elim (q.mode) [
    | batch num_queries ↦ (do
      not_started s (invalid "refine_factor must be set before the scan starts")
      validate_batch_candidates num_queries q.k (some value))
    | _ ↦ ok tt
  ]

  unfoldable pub set_refine_factor : ℕ → Scanner x → Result LanceError (Scanner x)
  set_refine_factor value s = do
    check_refine s.nearest s value
    ok (record s { refine_factor = some value })

  unfoldable pub set_ef : ℕ → Scanner x → Result LanceError (Scanner x)
  set_ef value s = ok (record s { ef = some value })

  unfoldable pub set_distance_range :
      Option x.Float → Option x.Float → Scanner x → Result LanceError (Scanner x)
  set_distance_range lower upper s = do
    not_started s (invalid "distance_range must be set before the scan starts")
    q ← ok_or s.nearest (invalid "distance_range requires nearest() to be configured")
    guard (is_single q.mode) (invalid "distance_range requires a single-vector nearest query")
    guard (finite_bound x lower) (invalid "lower_bound must be finite")
    guard (finite_bound x upper) (invalid "upper_bound must be finite")
    guard (bounds_in_order x lower upper) (invalid "lower_bound must be less than upper_bound")
    ok (record s { nearest = some (record q { lower_bound = lower; upper_bound = upper }) })

  unfoldable pub set_nprobes : ℕ → Scanner x → Result LanceError (Scanner x)
  set_nprobes n s = do
    not_started s (invalid "nprobes must be set before the scan starts")
    range ← exact n
    ok (record s { nprobes = range })

  unfoldable pub set_minimum_nprobes : ℕ → Scanner x → Result LanceError (Scanner x)
  set_minimum_nprobes n s = do
    not_started s (invalid "minimum_nprobes must be set before the scan starts")
    range ← with_minimum s.nprobes n
    ok (record s { nprobes = range })

  unfoldable pub set_maximum_nprobes : ℕ → Scanner x → Result LanceError (Scanner x)
  set_maximum_nprobes n s = do
    not_started s (invalid "maximum_nprobes must be set before the scan starts")
    range ← with_maximum s.nprobes n
    ok (record s { nprobes = range })

  unfoldable pub set_approx_mode : ℤ → Scanner x → Result LanceError (Scanner x)
  set_approx_mode value s = do
    mode ← approx_mode_of value
    not_started s (invalid "approx_mode must be set before the scan starts")
    ok (record s { approx_mode = some mode })

  unfoldable pub set_query_parallelism : ℤ → Scanner x → Result LanceError (Scanner x)
  set_query_parallelism value s = do
    guard (not (below_minus_one value))
        (invalid "query_parallelism must be -1, 0, or greater than 0")
    not_started s (invalid "query_parallelism must be set before the scan starts")
    ok (record s { query_parallelism = some value })

  unfoldable pub set_metric : ℤ → Scanner x → Result LanceError (Scanner x)
  set_metric value s = do metric ← metric_of value; ok (record s { metric_override = some metric })

  unfoldable pub set_use_index : Bool → Scanner x → Result LanceError (Scanner x)
  set_use_index enable s = ok (record s { use_index = some enable })

  unfoldable pub set_prefilter : Bool → Scanner x → Result LanceError (Scanner x)
  set_prefilter enable s = ok (record s { prefilter = enable })

  unfoldable pub set_index_segments : Slice → Scanner x → Result LanceError (Scanner x)
  set_index_segments segments s = do
    uuids ← read_slice segments (invalid "segment_uuids is NULL but len > 0")
    ok (record s { index_segments = nonempty uuids })
