-- ===== src/Scanner/Inversion.antt =====
-- What a nearest query that was accepted passed on its way, and the field it set.
use lance_c.Prelude.{
  ℕ, ℤ, String, Option, some, Bool, true, false, Result, ok, ok_or, not, ◌/◌, ◌||◌, ◌==◌, ltb,
  is_some, ◌≡◌, refl, sym, arith, ok_of_bind, past_guard, ok_inj,
}
use lance_c.Ffi.LastError.{LanceError}
use lance_c.Scanner.Config.{
  External, Scanner, NearestQuery, NearestMode, single, multi_vector, batch,
}
use lance_c.Scanner.Limits.{
  validate_batch_candidates, batch_query_value_count, checked_mul, max_batch_queries,
}
use lance_c.Scanner.Setters.{not_started}
use lance_c.Scanner.Elements.{
  decode_query_values, validate_query, fits_multi_vector, fits_batch, finite_values, batch_element,
  multi_vector_element, fits_isize, i32_max,
}
use lance_c.Scanner.Nearest.{nearest, nearest_batch, nearest_multivector, has_fts, query_of}

pub not_true : (b : Bool) → not b ≡ true → b ≡ false
not_true b h = ground arith

module _ {x : External} where
  -- A query of a mode was put into the scanner, and no text query was there.
  pub record Sets (mode : NearestMode) (k : ℕ) (s t : Scanner x) : Type 0 where
    pub query : NearestQuery x
    pub result : t ≡ record s { nearest = some query }
    pub in_mode : query.mode ≡ mode
    pub with_k : query.k ≡ k
    pub no_fts : has_fts s ≡ false

  abbrev setting :
      (mode : NearestMode) (name : String) (query : x.Array) (k : ℕ) {s t : Scanner x}
      → Path
          (Result LanceError (Scanner x))
          (ok (record s { nearest = some (query_of mode name query k) }))
          (ok t)
      → not (has_fts s) ≡ true
      → Sets mode k s t
  setting mode name query k {s} h free = record {
    query = query_of mode name query k;
    result = sym (ok_inj h);
    in_mode = refl;
    with_k = refl;
    no_fts = not_true (has_fts s) free;
  }

  pub nearest-Sets :
      (column : Option (Result LanceError String)) (query_data : Option x.Buffer) (query_len : ℕ)
      (element_type : ℤ) (k : ℕ) (s t : Scanner x)
      → nearest column query_data query_len element_type k s ≡ ok t
      → Sets single k s t
  unfolding nearest
  nearest-Sets column query_data query_len element_type k s t h =
      let (parsed, _, h1) = ok_of_bind (ok_or column _) _ h in
      let (buffer', _, h2) = ok_of_bind (ok_or query_data _) _ h1 in
      let (_, h3) = past_guard (not (k == 0)) _ _ h2 in
      let (free, h4) = past_guard (not (has_fts s)) _ _ h3 in
      let (name, _, h5) = ok_of_bind parsed _ h4 in
      let (query, _, h6) = ok_of_bind (decode_query_values x buffer' query_len element_type) _ h5 in
      setting single name query k h6 free

  pub nearest_multivector-Sets :
      (column : Option (Result LanceError String)) (query_data : Option x.Buffer)
      (dimension num_vectors : ℕ) (element_type : ℤ) (k : ℕ) (s t : Scanner x)
      → nearest_multivector column query_data dimension num_vectors element_type k s ≡ ok t
      → Sets multi_vector k s t
  unfolding nearest_multivector
  nearest_multivector-Sets column query_data dimension num_vectors element_type k s t h =
      let (parsed, _, h1) = ok_of_bind (ok_or column _) _ h in
      let (buffer', _, h2) = ok_of_bind (ok_or query_data _) _ h1 in
      let (_, h3) =
        past_guard
          (not ((dimension == 0) || ltb i32_max dimension || (num_vectors == 0) || (k == 0))) _ _
          h2 in
      let (_, h4) = past_guard (not (ltb 128 num_vectors || ltb (100000 / k) num_vectors)) _ _ h3 in
      let ((_, width), _, h5) = ok_of_bind (multi_vector_element element_type) _ h4 in
      let (count, _, h6) = ok_of_bind (fits_isize (checked_mul dimension num_vectors) width) _ h5 in
      let (free, h7) = past_guard (not (has_fts s)) _ _ h6 in
      let (name, _, h8) = ok_of_bind parsed _ h7 in
      let (field', _, h9) = ok_of_bind (ok_or (x.field s.dataset name) _) _ h8 in
      let (_, _, h10) = ok_of_bind (fits_multi_vector field' _ dimension) _ h9 in
      let (values, _, h11) = ok_of_bind (decode_query_values x buffer' count element_type) _ h10 in
      let (_, _, h12) = ok_of_bind (validate_query x values) _ h11 in
      let (query, _, h13) = ok_of_bind (x.matrix _ dimension values) _ h12 in
      setting multi_vector name query k h13 free

  pub nearest_batch-Sets :
      (column : Option (Result LanceError String)) (query_data : Option x.Buffer)
      (dimension num_queries : ℕ) (element_type : ℤ) (k : ℕ) (s t : Scanner x)
      → nearest_batch column query_data dimension num_queries element_type k s ≡ ok t
      → Sets (batch num_queries) k s t
        × ((is_some s.limit || is_some s.offset) ≡ false)
        × (validate_batch_candidates num_queries k s.refine_factor ≡ ok tt)
  unfolding nearest_batch
  nearest_batch-Sets column query_data dimension num_queries element_type k s t h =
      let (parsed, _, h1) = ok_of_bind (ok_or column _) _ h in
      let (buffer', _, h2) = ok_of_bind (ok_or query_data _) _ h1 in
      let (_, _, h3) = ok_of_bind (not_started s _) _ h2 in
      let (_, h4) =
        past_guard (not ((dimension == 0) || ltb i32_max dimension || (k == 0))) _ _ h3 in
      let (_, h5) =
        past_guard (not ((num_queries == 0) || ltb max_batch_queries num_queries)) _ _ h4 in
      let (free, h6) = past_guard (not (has_fts s)) _ _ h5 in
      let (open', h7) = past_guard (not (is_some s.limit || is_some s.offset)) _ _ h6 in
      let (_, fits, h8) =
        ok_of_bind (validate_batch_candidates num_queries k s.refine_factor) _ h7 in
      let ((element, width), _, h9) = ok_of_bind (batch_element element_type) _ h8 in
      let (count, _, h10) = ok_of_bind (batch_query_value_count dimension num_queries width) _ h9 in
      let (name, _, h11) = ok_of_bind parsed _ h10 in
      let (_, h12) = past_guard (not (is_some (x.field s.dataset "query_index"))) _ _ h11 in
      let (field', _, h13) = ok_of_bind (ok_or (x.field s.dataset name) _) _ h12 in
      let (_, h14) = past_guard (fits_batch field' element dimension) _ _ h13 in
      let (values, _, h15) = ok_of_bind (decode_query_values x buffer' count element_type) _ h14 in
      let (_, h16) = past_guard (finite_values x element values) _ _ h15 in
      let (query, _, h17) = ok_of_bind (x.matrix element dimension values) _ h16 in
      (
        setting (batch num_queries) name query k h17 free,
        not_true (is_some s.limit || is_some s.offset) open',
        fits,
      )
