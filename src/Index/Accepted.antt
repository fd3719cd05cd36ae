-- ===== src/Index/Accepted.antt =====
-- Which parameters build a vector index, by what each part of the variant requires.
use lance_c.Prelude.{
  ℕ, Option, none, some, Bool, true, false, Result, ok, err, not, ◌&&◌, ◌||◌, ◌≡◌, refl, ◌==◌,
  arith,
}
use lance_c.Index.{VectorType, ivf_flat, ivf_sq, ivf_pq, ivf_hnsw_sq, ivf_hnsw_pq, ivf_hnsw_flat}
use lance_c.Index.Params.{
  VectorParams, Lance, is_pq_bits, or_default, build_ivf, build_pq, build_sq, build_hnsw,
  build_variant, build_vector_params,
}

abbrev pub is_ok : {A E : Type 0} → Result E A → Bool
is_ok (ok a) = true
is_ok (err e) = false

abbrev pub uses_pq : VectorType → Bool
uses_pq ivf_pq = true
uses_pq ivf_hnsw_pq = true
uses_pq _ = false

abbrev pub uses_sq : VectorType → Bool
uses_sq ivf_sq = true
uses_sq ivf_hnsw_sq = true
uses_sq _ = false

abbrev pub uses_hnsw : VectorType → Bool
uses_hnsw ivf_hnsw_flat = true
uses_hnsw ivf_hnsw_pq = true
uses_hnsw ivf_hnsw_sq = true
uses_hnsw _ = false

module _ (x : Lance) where
  abbrev pub has_length : Option x.Centroids → ℕ → Bool
  has_length none n = true
  has_length (some c) n = x.length_of c == n

  -- what the parts of a variant require
  abbrev pub accepts : VectorParams → Option x.Centroids → Bool
  accepts p centroids =
      not (p.num_partitions == 0)
      && has_length centroids p.num_partitions
      && (not (uses_pq p.index_type)
          || (not (p.num_sub_vectors == 0) && is_pq_bits (or_default p.num_bits 8)))
      && (not (uses_sq p.index_type) || (p.num_bits == 0) || (p.num_bits == 8))
      && (not (uses_hnsw p.index_type) || not (p.hnsw_m == 0))

  accepts_variant :
      (t : VectorType) (p : VectorParams) (c : Option x.Centroids) (b : Option x.Codebook)
      → p.index_type ≡ t
      → is_ok (build_variant x t p c b) ≡ accepts p c
  unfolding build_ivf build_pq build_sq build_hnsw
  accepts_variant ivf_flat p none b h = ground (arith, h)
  accepts_variant ivf_sq p none b h = ground (arith, h)
  accepts_variant ivf_pq p none b h = ground (arith, h)
  accepts_variant ivf_hnsw_sq p none b h = ground (arith, h)
  accepts_variant ivf_hnsw_pq p none b h = ground (arith, h)
  accepts_variant ivf_hnsw_flat p none b h = ground (arith, h)
  accepts_variant ivf_flat p (some c) b h = ground (arith, h)
  accepts_variant ivf_sq p (some c) b h = ground (arith, h)
  accepts_variant ivf_pq p (some c) b h = ground (arith, h)
  accepts_variant ivf_hnsw_sq p (some c) b h = ground (arith, h)
  accepts_variant ivf_hnsw_pq p (some c) b h = ground (arith, h)
  accepts_variant ivf_hnsw_flat p (some c) b h = ground (arith, h)

  -- The parameters of a vector index are accepted exactly when there are partitions, as many as
  -- supplied centroids; for product quantization sub-vectors and codes of 4 or 8 bits (8 if left
  -- out); for scalar quantization 8 bits or none named; and for HNSW a positive `hnsw_m`.
  pub build_vector_params_lem :
      (p : VectorParams) (c : Option x.Centroids) (b : Option x.Codebook)
      → is_ok (build_vector_params x p c b) ≡ accepts p c
  unfolding build_vector_params
  build_vector_params_lem p c b = accepts_variant p.index_type p c b refl

pub ok_of_is_ok : {A E : Type 0} (r : Result E A) → is_ok r ≡ true → (a : A) × (r ≡ ok a)
ok_of_is_ok (ok a) h = (a, refl)
ok_of_is_ok (err e) h = cc
