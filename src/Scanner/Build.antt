-- ===== src/Scanner/Build.antt =====
-- `LanceScanner::build_scanner`. Lance's scanner and the FTS context are parameters.
pub mod Checked
pub mod Quiet
pub mod Scope
use lance_c.Prelude.{
  ℕ, zero, suc, ℤ, pos, negsuc, ◌^◌, ◌-◌, ◌/◌, Option, none, some, Bool, true, false, not, ◌&&◌,
  ◌||◌, ◌==◌, ltb, leb, is_some, any, List, [], ◌∷◌, ◌++◌, Result, ok, err, ◌>>=◌, ◌>>◌, guard,
  ok_or, if◌then◌else◌, String,
}
use lance_c.Ffi.LastError.{LanceError}
use lance_c.Scanner.Config.{
  External, Scanner, NearestQuery, NearestMode, single, multi_vector, batch, ApproxMode,
  BlobHandling, MetricType, hamming, l2, invalid,
}
use lance_c.Scanner.Limits.{validate_batch_candidates, or_one}
use lance_c.Scanner.Setters.{as_usize}
use lance_c.Scanner.Plan.{
  BuilderCall, Step, full_text_search, filter_substrait, filter, scan_stats_callback, call, reject,
  max_query_vector_candidates, is_hamming, concat, opt, flag, reject_if, is_multi_vector, rejected,
  batch_check, window, options, fragment_filter, fragments_last, has_mask, conflict_parts,
  conflicts, mask, metric_calls, multi_vector_parts, refine_calls, nearest_parts, nearest_calls,
  first_parts, first_calls,
}

-- `fragments` are the ids of the dataset's fragments; `parse` is a filter set on a copy and read
-- back; `context_query`, `validate_identity` and `select_segments` are of the FTS context.
pub record Builder (x : External) (P F : Type 0) : Type 0 where
  pub exec : BuilderCall x → P → Result LanceError P
  pub fragments : x.Dataset → List ℕ
  pub expr_filter : P → Result LanceError (Option F)
  pub parse : String → P → Result LanceError F
  pub conjoin : F → F → F
  pub filter_expr : F → P → P
  pub context_query : x.FtsContext → x.FtsQuery
  pub validate_identity : x.FtsContext → x.Dataset → Result LanceError (Unit {0})
  pub select_segments : x.FtsContext → Option (List ℕ) → Result LanceError (List ℕ)

-- `PreparedFtsExecution`, as far as it is decided here
pub record PreparedFts (x : External) : Type 0 where
  pub context : x.FtsContext
  pub segments : List ℕ
  pub scope_prefilter : Bool

-- `PreparedScalarSegment`, with what the scanner chooses of it
pub record PreparedSegment : Type 0 where
  pub segment : ℕ
  pub auto_selection : Bool
  pub fragment_ids : List ℕ
  pub use_scalar_index : Bool

pub record PreparedScanner (x : External) (P : Type 0) : Type 0 where
  pub scanner : P
  pub distributed_fts : Option (PreparedFts x)
  pub multi_vector_window : Option (ℕ × Option ℕ)
  pub scalar_segment : Option PreparedSegment

abbrev pub use_or_true : Option Bool → Bool
use_or_true none = true
use_or_true (some b) = b

abbrev pub explicit_ids : Option (List ℕ) → Option (List ℕ)
explicit_ids (some (f ∷ fs)) = some (f ∷ fs)
explicit_ids _ = none

abbrev pub offset_of : Option ℤ → ℕ
offset_of none = 0
offset_of (some n) = as_usize n

abbrev pub limit_of : Option ℤ → Option ℕ
limit_of none = none
limit_of (some n) = some (as_usize n)

abbrev pub nonempty_list : List String → Bool
nonempty_list [] = false
nonempty_list (_ ∷ _) = true

module _ {x : External} where
  abbrev pub not_ordinary : Scanner x → Bool
  not_ordinary s =
      is_some s.nearest
      || is_some s.fts_query
      || is_some s.fts_context
      || is_some s.index_segments
      || is_some s.fts_index_segments
      || s.include_deleted_rows

  unfoldable pub scalar_segment_of :
      Scanner x → Option ℕ → Result LanceError (Option PreparedSegment)
  scalar_segment_of s none = ok none
  scalar_segment_of s (some u) = do
    guard (not (not_ordinary s))
        (invalid "scalar_index_segment requires an ordinary scan of live rows")
    ids ←
        ok_or (explicit_ids s.fragment_ids)
          (invalid "scalar_index_segment requires explicit nonempty fragment_ids")
    ok (
        some (record {
          segment = u;
          auto_selection = s.scalar_index_auto_selection;
          fragment_ids = ids;
          use_scalar_index = use_or_true s.use_scalar_index;
        }))

  abbrev pub base_filter : Option (List ℕ) → Option String → List (Step x)
  base_filter (some bytes) sql = call (filter_substrait bytes) ∷ []
  base_filter none sql = opt sql filter

  abbrev pub has_filter : Scanner x → Bool
  has_filter s =
      is_some s.filter || is_some s.substrait_filter || nonempty_list s.additional_sql_filters

  abbrev pub window_of : Scanner x → Option (ℕ × Option ℕ)
  window_of s =
      if is_multi_vector s.nearest then some (offset_of s.offset, limit_of s.limit) else none

module _ {x : External} {P F : Type 0} (builder : Builder x P F) where
  unfoldable pub run_steps : List (Step x) → P → Result LanceError P
  run_steps [] p = ok p
  run_steps (call c ∷ steps) p = do p' ← builder.exec c p; run_steps steps p'
  run_steps (reject e ∷ steps) p = err e

  abbrev pub with_existing : Option F → F → F
  with_existing none f = f
  with_existing (some g) f = builder.conjoin g f

  -- the loop over the additional filters, from the first of them
  unfoldable pub conjoin_all : Option F → String → List String → P → Result LanceError F
  conjoin_all combined sql [] p = do f ← builder.parse sql p; ok (with_existing combined f)
  conjoin_all combined sql (sql' ∷ rest) p = do
    f ← builder.parse sql p
    conjoin_all (some (with_existing combined f)) sql' rest p

  abbrev pub add_filters : List String → P → Result LanceError P
  add_filters [] p = ok p
  add_filters (sql ∷ rest) p = do
    existing ← builder.expr_filter p
    f ← conjoin_all existing sql rest p
    ok (builder.filter_expr f p)

  unfoldable pub apply_filter : Scanner x → P → Result LanceError P
  unfolding run_steps conjoin_all
  apply_filter s p = do
    p' ← run_steps (base_filter s.substrait_filter s.filter) p
    add_filters s.additional_sql_filters p'

  abbrev pub fts_context_calls :
      Scanner x → Option x.FtsContext → P → Result LanceError (P × Option (PreparedFts x))
  fts_context_calls s none p = ok (p, none)
  fts_context_calls s (some c) p = do
    builder.validate_identity c s.dataset
    segments ← builder.select_segments c s.fts_index_segments
    p' ← builder.exec (full_text_search (builder.context_query c)) p
    ok (
      p',
      some (record {
        context = c;
        segments = segments;
        scope_prefilter = s.prefilter && has_filter s;
      }),
    )

  -- `scan` is the scanner that `dataset.scan()` makes
  unfoldable pub build_scanner : Scanner x → P → Result LanceError (PreparedScanner x P)
  unfolding first_calls run_steps apply_filter scalar_segment_of
  build_scanner s scan = do
    configured ← run_steps (first_calls (builder.fragments s.dataset) s) scan
    (searched, fts) ← fts_context_calls s s.fts_context configured
    filtered ← apply_filter s searched
    segment ← scalar_segment_of s s.scalar_index_segment
    last ← run_steps (opt s.scan_statistics_callback scan_stats_callback) filtered
    ok (record {
      scanner = last;
      distributed_fts = fts;
      multi_vector_window = window_of s;
      scalar_segment = segment;
    })
