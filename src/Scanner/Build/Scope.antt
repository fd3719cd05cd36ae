-- ===== src/Scanner/Build/Scope.antt =====
-- Where a vector query searches, and in which order the calls say so: the row mask always before the
-- query, its index segments after it, and the fragments after it exactly when it does not prefilter.
use lance_c.Prelude.{
  ℕ, Option, none, some, not, ◌&&◌, is_some, List, [], ◌∷◌, ◌++◌, if◌then◌else◌, ◌≡◌, refl, ap, ◌∙◌,
  inl, inr, Bool-cases,
}
use lance_c.Scanner.Config.{External, Scanner, NearestQuery}
use lance_c.Scanner.Plan
use lance_c.Scanner.Plan.{
  BuilderCall, Step, call, reject, concat, opt, flag, reject_if, rejected, mode_check, has_mask,
  max_query_vector_candidates, batch_check, window, window_parts, mask_parts, option_parts, options,
  fragment_filter, conflict_parts, conflicts, mask, nearest_parts, nearest_calls, metric_calls,
  refine_calls, multi_vector_parts, first_parts, first_calls, fragments_last, select_ids,
  is_multi_vector, is_hamming,
}
use lance_c.Scanner.Build.Quiet.{
  Scope, each, searched, segmented, restricted, masked, prefiltered, scope, scope-opt, scope-flag,
  scope-concat, opt-IsQuiet, conflicts-IsQuiet, metric-IsQuiet, refine-IsQuiet, options-IsQuiet,
}

-- the restriction to the fragments that were asked for, if any were
abbrev pub restriction : List ℕ → Option (List ℕ) → List Scope
restriction all = each (λ ids. restricted (select_ids ids all))

append_nil : (l : List Scope) → l ++ [] ≡ l
append_nil [] = refl
append_nil (s ∷ l) = ap (λ m. s ∷ m) (append_nil l)

module _ {x : External} where
  -- the query with the index segments that it may search, if any were asked for
  abbrev pub searches : Scanner x → Option (NearestQuery x) → List Scope
  searches s none = []
  searches s (some q) = searched q.column q.k ∷ each segmented s.index_segments

  -- the row mask, if there is an allowlist or a blocklist, and the prefilter flag
  abbrev pub masking : Scanner x → List Scope
  masking s =
      (if has_mask s then masked s.row_addr_allowlist s.row_addr_blocklist ∷ [] else [])
      ++ (if s.prefilter then prefiltered ∷ [] else [])

  nearest_scope :
      (s : Scanner x) (q : NearestQuery x) → scope (nearest_calls s (some q)) ≡ searches s (some q)
  nearest_scope s q =
      scope-concat (nearest_parts s q)
      ∙ ap (λ l. searched q.column q.k ∷ l)
          (rw
            (
              opt-IsQuiet s.nprobes.minimum Plan.minimum_nprobes (λ _. refl),
              opt-IsQuiet s.nprobes.maximum Plan.maximum_nprobes (λ _. refl),
              opt-IsQuiet s.approx_mode Plan.approx_mode (λ _. refl),
              opt-IsQuiet s.query_parallelism Plan.query_parallelism (λ _. refl),
              refine-IsQuiet s q,
              opt-IsQuiet s.ef Plan.ef (λ _. refl),
              metric-IsQuiet s s.metric_override,
              opt-IsQuiet s.use_index Plan.use_index (λ _. refl),
              scope-opt s.index_segments Plan.with_index_segments segmented (λ _. refl),
            )
            (append_nil (each segmented s.index_segments)))

  searches_lem :
      (s : Scanner x) (n : Option (NearestQuery x)) → scope (nearest_calls s n) ≡ searches s n
  searches_lem s none = refl
  searches_lem s (some q) = nearest_scope s q

  scope-mask : (s : Scanner x) → scope (mask s) ≡ masking s
  scope-mask s =
      scope-concat (mask_parts s)
      ∙ rw
          (
            scope-flag (has_mask s)
                (Plan.with_row_addr_prefilter s.row_addr_allowlist s.row_addr_blocklist)
                (masked s.row_addr_allowlist s.row_addr_blocklist) refl,
            scope-flag {x = x} s.prefilter Plan.prefilter prefiltered refl,
            append_nil (if s.prefilter then prefiltered ∷ [] else []),
          )
          refl

  filter_scope :
      (all : List ℕ) (s : Scanner x)
      → scope (fragment_filter all s) ≡ restriction all s.fragment_ids
  unfolding fragment_filter
  filter_scope all s = of_ids s.fragment_ids
    where
      of_ids :
          (o : Option (List ℕ))
          → scope {x = x} (opt o (λ ids. Plan.with_fragments (select_ids ids all)))
            ≡ restriction all o
      of_ids none = refl
      of_ids (some ids) = refl

  -- Of the calls that a configuration becomes before the FTS context and the filters, those that set the
  -- row mask, the prefilter flag, the vector query, its index segments and its fragments are, each at
  -- most once and in this order: the row mask and the prefilter flag, if they were asked for, with the
  -- caller's lists; the query, if there is one, with its column and its number of neighbours; and the
  -- index segments that were asked for. The restriction to the fragments that were asked for comes
  -- last if there is a query that does not prefilter, which is the order that Lance's scanner accepts,
  -- and first otherwise.
  pub first_calls_lem :
      (all : List ℕ) (s : Scanner x)
      → scope (first_calls all s) ≡ (
          if is_some s.nearest && not s.prefilter
          then masking s ++ (searches s s.nearest ++ restriction all s.fragment_ids)
          else restriction all s.fragment_ids ++ (masking s ++ searches s s.nearest))
  unfolding first_calls first_parts
  first_calls_lem all s =
      scope-concat (first_parts all s)
      ∙ rw
          (
            options-IsQuiet s,
            conflicts-IsQuiet s,
            scope-mask s,
            searches_lem s s.nearest,
            opt-IsQuiet {x = x} s.fts_query Plan.full_text_search (λ _. refl),
          )
          (elim (Bool-cases (fragments_last s)) [
            | inl e ↦ rw (e, filter_scope all s, append_nil (restriction all s.fragment_ids)) refl
            | inr e ↦ rw (e, filter_scope all s, append_nil (searches s s.nearest)) refl
          ])
