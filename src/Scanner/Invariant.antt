-- ===== src/Scanner/Invariant.antt =====
-- What every configuration call keeps of a scanner's configuration.
use lance_c.Prelude.{
  ℕ, String, Option, none, some, Bool, true, false, List, Result, ok, ◌>>=◌, ◌>>◌, ok_or, not, ◌||◌,
  is_some, ◌≡◌, sym, subst, arith, ok_of_bind, past_guard, ok_inj,
}
use lance_c.Ffi.LastError.{LanceError}
use lance_c.Scanner.Config.{
  External, Scanner, NprobesRange, new, NearestQuery, NearestMode, single, multi_vector, batch,
}
use lance_c.Scanner.Nprobes.{
  IsRange, exact, with_minimum, with_maximum, exact-IsRange, with_minimum-IsRange,
  with_maximum-IsRange,
}
use lance_c.Scanner.Queries.{
  check_refine, set_refine_factor, set_nprobes, set_minimum_nprobes, set_maximum_nprobes,
}
use lance_c.Scanner.Limits.{validate_batch_candidates}
use lance_c.Scanner.Calls
use lance_c.Scanner.Elements.{fts_in, fts_of}
use lance_c.Scanner.Nearest.{has_fts, full_text_search}
use lance_c.Scanner.Calls.{Setting, apply}
use lance_c.Scanner.Inversion.{Sets, nearest-Sets, nearest_batch-Sets, nearest_multivector-Sets}
use lance_c.Scanner.Setters.{is_batch, not_started}

abbrev pub Fits : NearestMode → ℕ → Option ℕ → Type 0
Fits (batch n) k refine = validate_batch_candidates n k refine ≡ ok tt
Fits _ k refine = Unit

abbrev pub is_batch_mode : NearestMode → Bool
is_batch_mode (batch n) = true
is_batch_mode _ = false

pub none_of :
    {A B : Type 0} (a : Option A) (b : Option B)
    → (is_some a || is_some b) ≡ false
    → (a ≡ none) × (b ≡ none)
none_of a b h = ground arith

module _ {x : External} where
  abbrev pub FitsQuery : Option (NearestQuery x) → Option ℕ → Type 0
  FitsQuery none refine = Unit
  FitsQuery (some q) refine = Fits q.mode q.k refine

  pub record IsValid (s : Scanner x) : Type 0 where
    pub batch_no_limit : is_batch s.nearest ≡ true → (s.limit ≡ none) × (s.offset ≡ none)
    pub nearest_no_fts : is_some s.nearest ≡ true → (s.fts_query ≡ none) × (s.fts_context ≡ none)
    pub one_fts : is_some s.fts_query ≡ true → s.fts_context ≡ none
    pub bytes_not_strict : s.strict_batch_size ≡ some true → s.batch_size_bytes ≡ none
    pub range : IsRange s.nprobes
    pub fits : FitsQuery s.nearest s.refine_factor

  query-IsValid :
      (s : Scanner x) (q : NearestQuery x)
      → IsValid s
      → has_fts s ≡ false
      → Fits q.mode q.k s.refine_factor
      → (is_batch_mode q.mode ≡ true → (s.limit ≡ none) × (s.offset ≡ none))
      → IsValid (record s { nearest = some q })
  query-IsValid s q h free fits' limits = record {
    batch_no_limit = λ b. limits (ground arith);
    nearest_no_fts = λ _. none_of s.fts_query s.fts_context free;
    one_fts = h.one_fts;
    bytes_not_strict = h.bytes_not_strict;
    range = h.range;
    fits = fits';
  }

  Sets-IsValid :
      (mode : NearestMode) (k : ℕ) (s t : Scanner x)
      → IsValid s
      → Sets mode k s t
      → Fits mode k s.refine_factor
      → (is_batch_mode mode ≡ true → (s.limit ≡ none) × (s.offset ≡ none))
      → IsValid t
  Sets-IsValid mode k s t h set fits' limits = subst IsValid (sym set.result) (
      query-IsValid s set.query h set.no_fts (rw (set.in_mode, set.with_k) fits')
        (rw (set.in_mode) limits))

  range-IsValid :
      (s : Scanner x) (r : NprobesRange)
      → IsValid s
      → IsRange r
      → IsValid (record s { nprobes = r })
  range-IsValid s r h fits' = record {
    batch_no_limit = h.batch_no_limit;
    nearest_no_fts = h.nearest_no_fts;
    one_fts = h.one_fts;
    bytes_not_strict = h.bytes_not_strict;
    range = fits';
    fits = h.fits;
  }

  -- The three calls that set a part of the range.
  ranged :
      (s t : Scanner x) (e : LanceError) (m : Result LanceError NprobesRange)
      → IsValid s
      → ((r : NprobesRange) → m ≡ ok r → IsRange r)
      → (not_started s e >> (m >>= λ r. ok (record s { nprobes = r }))) ≡ ok t
      → IsValid t
  ranged s t e m h keeps eq =
      let (_, _, h1) = ok_of_bind (not_started s e) _ eq in
      let (r, is, h2) = ok_of_bind m _ h1 in
      subst IsValid (ok_inj h2) (range-IsValid s r h (keeps r is))

  refine_factor-IsValid :
      (n : ℕ) (s t : Scanner x) → IsValid s → set_refine_factor n s ≡ ok t → IsValid t
  unfolding set_refine_factor
  refine_factor-IsValid n s t h r =
      let (_, checked, h1) = ok_of_bind (check_refine s.nearest s n) _ r in
      subst IsValid (ok_inj h1) (record {
        batch_no_limit = h.batch_no_limit;
        nearest_no_fts = h.nearest_no_fts;
        one_fts = h.one_fts;
        bytes_not_strict = h.bytes_not_strict;
        range = h.range;
        fits = refits s.nearest checked;
      })
    where
      refits : (q : Option (NearestQuery x)) → check_refine q s n ≡ ok tt → FitsQuery q (some n)
      refits none e = tt
      refits (some q) e = ground arith

  full_text_search-IsValid :
      (q : Option (Result LanceError String)) (cs : Result LanceError (Option (List String)))
      (d : ℕ) (s t : Scanner x)
      → IsValid s
      → full_text_search q cs d s ≡ ok t
      → IsValid t
  unfolding full_text_search
  full_text_search-IsValid q cs d s t h r =
      let (parsed, _, h1) = ok_of_bind (ok_or q _) _ r in
      let (no_query, h2) = past_guard (not (is_some s.nearest)) _ _ h1 in
      let (no_context, h3) = past_guard (not (is_some s.fts_context)) _ _ h2 in
      let (query_text, _, h4) = ok_of_bind parsed _ h3 in
      let (names, _, h5) = ok_of_bind cs _ h4 in
      let (fts, _, h6) = ok_of_bind (fts_in x (fts_of x query_text d) names) _ h5 in
      subst IsValid (ok_inj h6) (record {
        batch_no_limit = h.batch_no_limit;
        nearest_no_fts = λ b. ground arith;
        one_fts = λ _. ground arith;
        bytes_not_strict = h.bytes_not_strict;
        range = h.range;
        fits = h.fits;
      })

  pub apply-IsValid : (c : Setting x) (s t : Scanner x) → IsValid s → apply c s ≡ ok t → IsValid t
  unfolding apply set_nprobes set_minimum_nprobes set_maximum_nprobes
  apply-IsValid (Calls.nearest c d n e k) s t h r =
      Sets-IsValid single k s t h (nearest-Sets c d n e k s t r) tt (λ b. ground arith)
  apply-IsValid (Calls.nearest_batch c d n m e k) s t h r =
      let (set, closed, fits') = nearest_batch-Sets c d n m e k s t r in
      Sets-IsValid (batch m) k s t h set fits' (λ _. none_of s.limit s.offset closed)
  apply-IsValid (Calls.nearest_multivector c d n m e k) s t h r =
      Sets-IsValid multi_vector k s t h (nearest_multivector-Sets c d n m e k s t r) tt
        (λ b. ground arith)
  apply-IsValid (Calls.full_text_search q cs d) s t h r = full_text_search-IsValid q cs d s t h r
  apply-IsValid (Calls.refine_factor n) s t h r = refine_factor-IsValid n s t h r
  apply-IsValid (Calls.nprobes n) s t h r = ranged s t _ (exact n) h (exact-IsRange n) r
  apply-IsValid (Calls.minimum_nprobes n) s t h r =
      ranged s t _ (with_minimum s.nprobes n) h (λ r. with_minimum-IsRange s.nprobes n r h.range) r
  apply-IsValid (Calls.maximum_nprobes n) s t h r =
      ranged s t _ (with_maximum s.nprobes n) h (λ r. with_maximum-IsRange s.nprobes n r h.range) r
  apply-IsValid (Calls.limit n) s t h r = ground arith
  apply-IsValid _ s t h r = ground arith

  pub new-IsValid : (d : x.Dataset) → IsValid (new d)
  unfolding new
  new-IsValid d = ground arith
