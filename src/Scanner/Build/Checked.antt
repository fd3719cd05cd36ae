-- ===== src/Scanner/Build/Checked.antt =====
-- What a configuration that was built is known to be, and where its fragments restrict the search.
use lance_c.Prelude.{
  ℕ, ◌/◌, ◌≤◌, ◌<◌, Option, none, some, Bool, true, false, not, ◌&&◌, ◌||◌, ◌==◌, ltb, is_some,
  List, [], ◌∷◌, ◌++◌, ok, ok_or, ◌≡◌, refl, sym, ap, ◌∙◌, arith, ok_of_bind, past_guard, if_true,
}
use lance_c.Ffi.LastError.{LanceError}
use lance_c.Scanner.Config.{External, Scanner, NearestQuery}
use lance_c.Scanner.Limits.{or_one}
use lance_c.Scanner.Invariant.{IsValid, FitsQuery}
use lance_c.Scanner.Inversion.{not_true}
use lance_c.Scanner.Plan.{
  concat, conflict_parts, first_parts, nearest_parts, multi_vector_parts, Step, call, reject,
  reject_if, batch_check, conflicts, nearest_calls, first_calls, has_mask, is_multi_vector,
  is_hamming, max_query_vector_candidates,
}
use lance_c.Scanner.Build.{
  PreparedSegment, Builder, run_steps, build_scanner, PreparedScanner, not_ordinary, explicit_ids,
  scalar_segment_of, fts_context_calls, apply_filter,
}

module _ {x : External} where
  abbrev pub rejects : List (Step x) → Bool
  rejects [] = false
  rejects (call c ∷ steps) = rejects steps
  rejects (reject e ∷ steps) = true

  rejects_split :
      (xs ys : List (Step x))
      → rejects (xs ++ ys) ≡ false
      → (rejects xs ≡ false) × (rejects ys ≡ false)
  rejects_split [] ys h = (refl, h)
  rejects_split (call c ∷ xs) ys h = rejects_split xs ys h
  rejects_split (reject e ∷ xs) ys h = ground arith

  -- no part rejects
  abbrev AllPass : List (List (Step x)) → Type 0
  AllPass [] = Unit
  AllPass (l ∷ ls) = (rejects l ≡ false) × AllPass ls

  passes : (ls : List (List (Step x))) → rejects (concat ls) ≡ false → AllPass ls
  passes [] h = tt
  passes (l ∷ ls) h = let (first, rest) = rejects_split l (concat ls) h in (first, passes ls rest)

rejects_if :
    (x : External) (b : Bool) (e : LanceError) → rejects (reject_if {x = x} b e) ≡ false → b ≡ false
rejects_if x true e h = cc
rejects_if x false e h = refl

module _ {x : External} where
  -- The checks on a multi-vector query.
  abbrev pub MultiVectorFits : Scanner x → Option (NearestQuery x) → Type 0
  MultiVectorFits s none = Unit
  MultiVectorFits s (some q) =
      is_multi_vector s.nearest ≡ true
      → (is_hamming s.metric_override ≡ false)
        × (0 < or_one s.refine_factor)
        × (q.k ≤ max_query_vector_candidates / or_one s.refine_factor)

  pub record IsCompatible (s : Scanner x) : Type 0 where
    pub segments_nearest : is_some s.index_segments ≡ true → is_some s.nearest ≡ true
    pub segments_context : is_some s.fts_index_segments ≡ true → is_some s.fts_context ≡ true
    pub context_fragments : is_some s.fts_context ≡ true → s.fragment_ids ≡ none
    pub segment_unmasked : is_some s.scalar_index_segment ≡ true → has_mask s ≡ false
    pub segment_ordinary : is_some s.scalar_index_segment ≡ true → not_ordinary s ≡ false
    pub segment_domain :
        is_some s.scalar_index_segment ≡ true → is_some (explicit_ids s.fragment_ids) ≡ true
    pub multi_vector_fits : MultiVectorFits s s.nearest

  multi_vector_lem :
      (s : Scanner x) (n : Option (NearestQuery x))
      → rejects (nearest_calls s n) ≡ false
      → MultiVectorFits s n
  multi_vector_lem s none h = tt
  multi_vector_lem s (some q) h = λ m.
      let parts = passes (nearest_parts s q) h in
      let refine' =
        passes (multi_vector_parts s q) (sym (ap rejects (if_true _ _ m)) ∙ parts.1.1.1.1.1.0) in
      let metric = rejects_if x (is_hamming s.metric_override) _ refine'.0 in
      let count =
        rejects_if x
          ((or_one s.refine_factor == 0)
            || ltb (max_query_vector_candidates / or_one s.refine_factor) q.k)
          _ refine'.1.0 in
      (metric, ground arith, ground arith)

  segment_lem :
      (s : Scanner x) (u : Option ℕ) (g : Option PreparedSegment)
      → scalar_segment_of s u ≡ ok g
      → (is_some u ≡ true → not_ordinary s ≡ false)
        × (is_some u ≡ true → is_some (explicit_ids s.fragment_ids) ≡ true)
  unfolding scalar_segment_of
  segment_lem s none g e = (λ h. ground arith, λ h. ground arith)
  segment_lem s (some u) g e =
      let (ordinary, h1) = past_guard (not (not_ordinary s)) _ _ e in
      let (ids, is, _) = ok_of_bind (ok_or (explicit_ids s.fragment_ids) _) _ h1 in
      (λ _. not_true (not_ordinary s) ordinary, λ _. ground arith)

module _ {x : External} {P F : Type 0} (builder : Builder x P F) where
  run_steps_ok :
      (steps : List (Step x)) (p q : P) → run_steps builder steps p ≡ ok q → rejects steps ≡ false
  unfolding run_steps
  run_steps_ok [] p q h = refl
  run_steps_ok (call c ∷ steps) p q h =
      let (p', _, rest) = ok_of_bind (builder.exec c p) _ h in run_steps_ok steps p' q rest
  run_steps_ok (reject e ∷ steps) p q h = cc

  -- A configuration that is built is compatible: every combination that the source refuses is
  -- refused, whatever Lance's scanner does with the calls.
  pub build_scanner-IsCompatible :
      (s : Scanner x) (scan : P) (r : PreparedScanner x P)
      → build_scanner builder s scan ≡ ok r
      → IsCompatible s
  unfolding build_scanner first_calls first_parts conflicts conflict_parts
  build_scanner-IsCompatible s scan r h =
      let (p1, e1, h1) =
        ok_of_bind (run_steps builder (first_calls (builder.fragments s.dataset) s) scan) _ h in
      let ((p2, fts), _, h2) = ok_of_bind (fts_context_calls builder s s.fts_context p1) _ h1 in
      let (p3, _, h3) = ok_of_bind (apply_filter builder s p2) _ h2 in
      let (segment, e4, _) = ok_of_bind (scalar_segment_of s s.scalar_index_segment) _ h3 in
      let none_rejected = run_steps_ok (first_calls (builder.fragments s.dataset) s) scan p1 e1 in
      let parts = passes (first_parts (builder.fragments s.dataset) s) none_rejected in
      let checks = passes (conflict_parts s) parts.1.1.0 in
      let d1 = rejects_if x (is_some s.index_segments && not (is_some s.nearest)) _ checks.0 in
      let d2 =
        rejects_if x (is_some s.fts_index_segments && not (is_some s.fts_context)) _ checks.1.0 in
      let d3 = rejects_if x (is_some s.fts_context && is_some s.fragment_ids) _ checks.1.1.0 in
      let d4 = rejects_if x (has_mask s && is_some s.scalar_index_segment) _ checks.1.1.1.0 in
      let (ordinary, domain) = segment_lem s s.scalar_index_segment segment e4 in
      record {
        segments_nearest = λ e. ground arith;
        segments_context = λ e. ground arith;
        context_fragments = λ e. ground arith;
        segment_unmasked = λ e. ground arith;
        segment_ordinary = ordinary;
        segment_domain = domain;
        multi_vector_fits = multi_vector_lem s s.nearest parts.1.1.1.1.0;
      }

module _ {x : External} where
  -- Of a valid configuration, the candidates of a batch query are within the limit when they are
  -- checked again, so that this check of the build never refuses.
  pub batch_check_passes :
      (s : Scanner x) → IsValid s → rejects (batch_check s.nearest s.refine_factor) ≡ false
  unfolding batch_check
  batch_check_passes s h = fits_pass s.nearest h.fits
    where
      fits_pass :
          (n : Option (NearestQuery x))
          → FitsQuery n s.refine_factor
          → rejects (batch_check n s.refine_factor) ≡ false
      fits_pass none f = refl
      fits_pass (some q) f = ground arith
