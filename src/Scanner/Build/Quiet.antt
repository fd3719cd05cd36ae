-- ===== src/Scanner/Build/Quiet.antt =====
-- The calls that say where to search, and that the other parts of the configuration contain none.
use lance_c.Prelude.{
  String, if◌then◌else◌, ℕ, Option, none, some, Bool, true, false, not, ◌&&◌, ◌||◌, ◌==◌, is_some,
  List, [], ◌∷◌, ◌++◌, ◌≡◌, refl, sym, ap, ◌∙◌, Result, ok, err, inl, inr, Bool-cases, if_true,
  if_false, ltb, ◌/◌,
}
use lance_c.Ffi.LastError.{LanceError}
use lance_c.Scanner.Config.{External, Scanner, NearestQuery, NearestMode, MetricType, l2}
use lance_c.Scanner.Limits.{validate_batch_candidates, or_one}
use lance_c.Scanner.Plan
use lance_c.Scanner.Plan.{
  BuilderCall, Step, call, reject, concat, opt, flag, reject_if, rejected, mode_check, has_mask,
  max_query_vector_candidates, batch_check, window, window_parts, mask_parts, option_parts, options,
  fragment_filter, conflict_parts, conflicts, mask, nearest_parts, nearest_calls, metric_calls,
  refine_calls, multi_vector_parts, first_parts, first_calls, fragments_last, select_ids,
  is_multi_vector, is_hamming,
}

-- The calls that say where to search: the vector query by its column and its number of neighbours, the
-- index segments that it may search, the fragments, the row mask, and the prefilter flag.
pub data Scope : Type 0 where
  searched : String → ℕ → Scope
  segmented : List ℕ → Scope
  restricted : List ℕ → Scope
  masked : Option (List ℕ) → Option (List ℕ) → Scope
  prefiltered : Scope

-- one scope for each value that is there
abbrev pub each : {A : Type 0} → (A → Scope) → Option A → List Scope
each g none = []
each g (some a) = g a ∷ []

append_assoc : (xs ys zs : List Scope) → (xs ++ ys) ++ zs ≡ xs ++ (ys ++ zs)
append_assoc [] ys zs = refl
append_assoc (s ∷ xs) ys zs = ap (λ l. s ∷ l) (append_assoc xs ys zs)

module _ {x : External} where
  abbrev pub scope_of : BuilderCall x → List Scope
  scope_of (Plan.nearest column query k) = searched column k ∷ []
  scope_of (Plan.with_index_segments ids) = segmented ids ∷ []
  scope_of (Plan.with_row_addr_prefilter allowed blocked) = masked allowed blocked ∷ []
  scope_of Plan.prefilter = prefiltered ∷ []
  scope_of (Plan.with_fragments ids) = restricted ids ∷ []
  scope_of _ = []

  abbrev pub scope : List (Step x) → List Scope
  scope [] = []
  scope (call c ∷ steps) = scope_of c ++ scope steps
  scope (reject e ∷ steps) = scope steps

  scope-append : (xs ys : List (Step x)) → scope (xs ++ ys) ≡ scope xs ++ scope ys
  scope-append [] ys = refl
  scope-append (call c ∷ xs) ys =
      ap (λ l. scope_of c ++ l) (scope-append xs ys)
      ∙ sym (append_assoc (scope_of c) (scope xs) (scope ys))
  scope-append (reject e ∷ xs) ys = scope-append xs ys

  abbrev scopes : List (List (Step x)) → List Scope
  scopes [] = []
  scopes (l ∷ ls) = scope l ++ scopes ls

  pub scope-concat : (ls : List (List (Step x))) → scope (concat ls) ≡ scopes ls
  scope-concat [] = refl
  scope-concat (l ∷ ls) = scope-append l (concat ls) ∙ ap (λ m. scope l ++ m) (scope-concat ls)

  -- parts that do not say where to search
  abbrev IsQuiet : List (Step x) → Type 0
  IsQuiet steps = scope steps ≡ []

  pub opt-IsQuiet :
      {A : Type 0} (o : Option A) (f : A → BuilderCall x)
      → ((a : A) → scope_of (f a) ≡ [])
      → IsQuiet (opt o f)
  opt-IsQuiet none f h = refl
  opt-IsQuiet (some a) f h = ap (λ l. l ++ []) (h a)

  -- a part of one such call, or none
  pub scope-opt :
      {A : Type 0} (o : Option A) (f : A → BuilderCall x) (g : A → Scope)
      → ((a : A) → scope_of (f a) ≡ g a ∷ [])
      → scope (opt o f) ≡ each g o
  scope-opt none f g h = refl
  scope-opt (some a) f g h = ap (λ l. l ++ []) (h a)

  pub scope-flag :
      (b : Bool) (c : BuilderCall x) (t : Scope)
      → scope_of c ≡ t ∷ []
      → scope (flag b c) ≡ (if b then t ∷ [] else [])
  scope-flag true c t h = ap (λ l. l ++ []) h
  scope-flag false c t h = refl

  flag-IsQuiet : (b : Bool) (c : BuilderCall x) → scope_of c ≡ [] → IsQuiet (flag b c)
  flag-IsQuiet true c h = ap (λ l. l ++ []) h
  flag-IsQuiet false c h = refl

  abbrev AllQuiet : List (List (Step x)) → Type 0
  AllQuiet [] = Unit
  AllQuiet (l ∷ ls) = IsQuiet l × AllQuiet ls

  concat-IsQuiet : (ls : List (List (Step x))) → AllQuiet ls → IsQuiet (concat ls)
  concat-IsQuiet [] h = refl
  concat-IsQuiet (l ∷ ls) h =
      scope-append l (concat ls) ∙ (ap (λ m. m ++ scope (concat ls)) h.0 ∙ concat-IsQuiet ls h.1)

reject_if-IsQuiet : (x : External) (b : Bool) (e : LanceError) → IsQuiet (reject_if {x = x} b e)
reject_if-IsQuiet x true e = refl
reject_if-IsQuiet x false e = refl

rejected-IsQuiet : (x : External) (r : Result LanceError (Unit {0})) → IsQuiet (rejected {x = x} r)
rejected-IsQuiet x (ok u) = refl
rejected-IsQuiet x (err e) = refl

mode_check-IsQuiet :
    (x : External) (m : NearestMode) (k : ℕ) (r : Option ℕ) → IsQuiet (mode_check {x = x} m k r)
mode_check-IsQuiet x (NearestMode.batch n) k r =
    rejected-IsQuiet x (validate_batch_candidates n k r)
mode_check-IsQuiet x _ k r = refl

module _ {x : External} where
  batch_check-IsQuiet : (n : Option (NearestQuery x)) (r : Option ℕ) → IsQuiet (batch_check n r)
  unfolding batch_check
  batch_check-IsQuiet none r = refl
  batch_check-IsQuiet (some q) r = mode_check-IsQuiet x q.mode q.k r

  window-IsQuiet : (s : Scanner x) → IsQuiet (window s)
  window-IsQuiet s = concat-IsQuiet (window_parts s) (
    flag-IsQuiet (is_some s.limit || is_some s.offset) (Plan.limit s.limit s.offset) refl,
    (
      flag-IsQuiet ((is_some s.limit || is_some s.offset) && is_multi_vector s.nearest)
          (Plan.limit none none) refl,
      tt,
    ),
  )

  pub options-IsQuiet : (s : Scanner x) → IsQuiet (options s)
  unfolding options option_parts
  options-IsQuiet s = concat-IsQuiet (option_parts s) (
    opt-IsQuiet s.columns Plan.project (λ _. refl),
    (
      opt-IsQuiet s.blob_handling Plan.blob_handling (λ _. refl),
      (
        batch_check-IsQuiet s.nearest s.refine_factor,
        (
          window-IsQuiet s,
          (
            opt-IsQuiet s.batch_size Plan.batch_size (λ _. refl),
            (
              opt-IsQuiet s.batch_size_bytes Plan.batch_size_bytes (λ _. refl),
              (
                opt-IsQuiet s.strict_batch_size Plan.strict_batch_size (λ _. refl),
                (
                  opt-IsQuiet s.io_buffer_size Plan.io_buffer_size (λ _. refl),
                  (
                    opt-IsQuiet s.batch_readahead Plan.batch_readahead (λ _. refl),
                    (
                      opt-IsQuiet s.fragment_readahead Plan.fragment_readahead (λ _. refl),
                      (
                        opt-IsQuiet s.target_parallelism Plan.target_parallelism (λ _. refl),
                        (
                          opt-IsQuiet s.scan_in_order Plan.scan_in_order (λ _. refl),
                          (
                            opt-IsQuiet s.use_scalar_index Plan.use_scalar_index (λ _. refl),
                            (
                              opt-IsQuiet s.use_stats Plan.use_stats (λ _. refl),
                              (
                                flag-IsQuiet s.with_row_id Plan.with_row_id refl,
                                (
                                  flag-IsQuiet s.with_row_address Plan.with_row_address refl,
                                  (
                                    flag-IsQuiet s.include_deleted_rows Plan.include_deleted_rows
                                        refl,
                                    tt,
                                  ),
                                ),
                              ),
                            ),
                          ),
                        ),
                      ),
                    ),
                  ),
                ),
              ),
            ),
          ),
        ),
      ),
    ),
  )

  pub conflicts-IsQuiet : (s : Scanner x) → IsQuiet (conflicts s)
  unfolding conflicts conflict_parts
  conflicts-IsQuiet s = concat-IsQuiet (conflict_parts s) (
    reject_if-IsQuiet x (is_some s.index_segments && not (is_some s.nearest)) _,
    (
      reject_if-IsQuiet x (is_some s.fts_index_segments && not (is_some s.fts_context)) _,
      (
        reject_if-IsQuiet x (is_some s.fts_context && is_some s.fragment_ids) _,
        (reject_if-IsQuiet x (has_mask s && is_some s.scalar_index_segment) _, tt),
      ),
    ),
  )

  pub metric-IsQuiet : (s : Scanner x) (m : Option MetricType) → IsQuiet (metric_calls s m)
  metric-IsQuiet s (some m) = refl
  metric-IsQuiet s none = flag-IsQuiet (is_multi_vector s.nearest) (Plan.distance_metric l2) refl

  pub refine-IsQuiet : (s : Scanner x) (q : NearestQuery x) → IsQuiet (refine_calls s q)
  refine-IsQuiet s q = elim (Bool-cases (is_multi_vector s.nearest)) [
    | inl e ↦
        ap scope (if_true _ _ e)
        ∙ concat-IsQuiet (multi_vector_parts s q) (
          reject_if-IsQuiet x (is_hamming s.metric_override) _,
          (
            reject_if-IsQuiet x
                ((or_one s.refine_factor == 0)
                  || ltb (max_query_vector_candidates / or_one s.refine_factor) q.k)
                _,
            (refl, tt),
          ),
        )
    | inr e ↦ ap scope (if_false _ _ e) ∙ opt-IsQuiet s.refine_factor Plan.refine (λ _. refl)
  ]
