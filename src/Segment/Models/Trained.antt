-- ===== src/Segment/Models/Trained.antt =====
-- What the trainers return is accepted by a vector builder.
use lance_c.Prelude.{
  ℕ, ◌%◌, ◌/◌, ◌^◌, pos, z_eq_refl, as_i32, text, none, some, true, false, ok, ◌≡◌, ◌≢◌, refl, ◌∙◌,
  ◌==◌, eq→==, arith, List,
}
use lance_c.Scanner.Limits.{checked_mul}
use lance_c.Index.{
  VectorType, ivf_flat, ivf_sq, ivf_pq, ivf_hnsw_sq, ivf_hnsw_pq, ivf_hnsw_flat, metric_code,
}
use lance_c.Index.Accepted.{uses_hnsw, accepts, ok_of_is_ok, build_vector_params_lem}
use lance_c.Index.Params.{
  VectorParams, Defaults, Lance, or_default, is_pq_bits, build_vector_params,
}
use lance_c.Segment.Options.{BuildMode}
use lance_c.Segment.Model.Borrow.{Model}
use lance_c.Segment.Provenance.{Uuids, Provenance}
use lance_c.Segment.Models.{
  is_pq, checked_shl, check_mode, lance_of, check_centroid_provenance, check_codebook_provenance,
  check_centroids, check_pq, check_codebook, check_models,
}

module _ {V : Type 0} {u : Uuids} (p : VectorParams) (dim : ℕ) (mc mb : Model V)
    (vc vb : Provenance u) where
  -- the tests, one by one, on centroids and codebook that match
  provenance_passes :
      vc.kind ≡ text "ivf"
      → vc.metric ≡ pos (metric_code p.metric)
      → vc.dimension ≡ dim
      → check_centroid_provenance p dim (some (mc, vc)) ≡ ok tt
  provenance_passes k m d =
      rw (k, m, z_eq_refl (pos (metric_code p.metric)), d, eq→== dim dim refl) refl

  codebook_provenance_passes :
      vb.kind ≡ text "pq"
      → vb.metric ≡ pos (metric_code p.metric)
      → vb.dimension ≡ dim
      → vb.num_sub_vectors ≡ some p.num_sub_vectors
      → vb.num_bits ≡ some (or_default p.num_bits 8)
      → u.same vc.ivf_id vb.ivf_id ≡ true
      → check_codebook_provenance p dim (some (mc, vc)) (some (mb, vb)) ≡ ok tt
  codebook_provenance_passes k m d n b s =
      rw
        (
          k,
          m,
          z_eq_refl (pos (metric_code p.metric)),
          d,
          eq→== dim dim refl,
          n,
          b,
          eq→== p.num_sub_vectors p.num_sub_vectors refl,
          eq→== (or_default p.num_bits 8) (or_default p.num_bits 8) refl,
          s,
        )
        refl

  centroids_pass :
      mc.value_length ≡ as_i32 dim
      → mc.float32 ≡ true
      → mc.len ≡ p.num_partitions
      → check_centroids p dim (some (mc, vc)) ≡ ok tt
  centroids_pass w f l = rw (w, z_eq_refl (as_i32 dim), f, eq→== mc.len p.num_partitions l) refl

  pq_passes :
      is_pq p.index_type ≡ true
      → is_pq_bits (or_default p.num_bits 8) ≡ true
      → check_pq p (some (mc, vc)) (some (mb, vb)) ≡ ok tt
  unfolding check_pq
  pq_passes i b = rw (i, b) refl

  shl_bits : (bits : ℕ) → is_pq_bits bits ≡ true → checked_shl bits ≡ some (2 ^ bits)
  shl_bits bits h = ground (arith, h)

  codebook_passes :
      p.num_sub_vectors ≢ 0
      → (dim % p.num_sub_vectors == 0) ≡ true
      → is_pq_bits (or_default p.num_bits 8) ≡ true
      → checked_mul p.num_sub_vectors (2 ^ or_default p.num_bits 8) ≡ some mb.len
      → mb.value_length ≡ as_i32 (dim / p.num_sub_vectors)
      → mb.float32 ≡ true
      → check_codebook p dim (some (mb, vb)) ≡ ok (some mb.values)
  codebook_passes n d b r w f =
      let z : (p.num_sub_vectors == 0) ≡ false = ground (arith, n) in
      rw
        (
          z,
          d,
          b,
          shl_bits (or_default p.num_bits 8) b,
          r,
          eq→== mb.len mb.len refl,
          w,
          z_eq_refl (as_i32 (dim / p.num_sub_vectors)),
          f,
        )
        refl

  accepts_pq :
      (x : Lance) (c : x.Centroids) (v : VectorType)
      → p.index_type ≡ v
      → is_pq v ≡ true
      → p.num_partitions ≢ 0
      → x.length_of c ≡ p.num_partitions
      → p.num_sub_vectors ≢ 0
      → is_pq_bits (or_default p.num_bits 8) ≡ true
      → (uses_hnsw v ≡ true → p.hnsw_m ≢ 0)
      → accepts x p (some c) ≡ true
  accepts_pq x c ivf_pq e i n l s b h = ground (arith, e, n, l, s, b)
  accepts_pq x c ivf_hnsw_pq e i n l s b h = ground (arith, e, n, l, s, b, h refl)
  accepts_pq x c ivf_flat e i n l s b h = cc
  accepts_pq x c ivf_sq e i n l s b h = cc
  accepts_pq x c ivf_hnsw_sq e i n l s b h = cc
  accepts_pq x c ivf_hnsw_flat e i n l s b h = cc

  -- centroids and a codebook that were trained together for this column and these parameters
  pub record Matches : Type 0 where
    pub product : is_pq p.index_type ≡ true
    pub partitions : p.num_partitions ≢ 0
    pub sub_vectors : p.num_sub_vectors ≢ 0
    pub divides : (dim % p.num_sub_vectors == 0) ≡ true
    pub bits : is_pq_bits (or_default p.num_bits 8) ≡ true
    pub graph : uses_hnsw p.index_type ≡ true → p.hnsw_m ≢ 0
    pub kind : (vc.kind ≡ text "ivf") × (vb.kind ≡ text "pq")
    pub metric : (vc.metric ≡ pos (metric_code p.metric)) × (vb.metric ≡ pos (metric_code p.metric))
    pub dimension : (vc.dimension ≡ dim) × (vb.dimension ≡ dim)
    pub codes :
        (vb.num_sub_vectors ≡ some p.num_sub_vectors)
        × (vb.num_bits ≡ some (or_default p.num_bits 8))
    pub same : u.same vc.ivf_id vb.ivf_id ≡ true
    pub rows :
        (mc.len ≡ p.num_partitions)
        × (checked_mul p.num_sub_vectors (2 ^ or_default p.num_bits 8) ≡ some mb.len)
    pub width :
        (mc.value_length ≡ as_i32 dim) × (mb.value_length ≡ as_i32 (dim / p.num_sub_vectors))
    pub float32 : (mc.float32 ≡ true) × (mb.float32 ≡ true)

  pub check_models_pass :
      (defaults : Defaults) (mode : BuildMode) (fragments : List ℕ)
      → Matches
      → check_mode mode true ≡ ok tt
      → check_models defaults p dim mode fragments none (some (mc, vc)) (some (mb, vb))
        ≡ ok (some mb.values)
  unfolding check_models
  check_models_pass defaults mode fragments h m =
      let (core, b) =
        ok_of_is_ok (build_vector_params (lance_of V defaults) p (some mc) (some mb.values)) (
          build_vector_params_lem (lance_of V defaults) p (some mc) (some mb.values)
          ∙ accepts_pq (lance_of V defaults) mc p.index_type refl h.product h.partitions h.rows.0
              h.sub_vectors h.bits h.graph) in
      rw
        (
          provenance_passes h.kind.0 h.metric.0 h.dimension.0,
          codebook_provenance_passes h.kind.1 h.metric.1 h.dimension.1 h.codes.0 h.codes.1 h.same,
          centroids_pass h.width.0 h.float32.0 h.rows.0,
          pq_passes h.product h.bits,
          m,
          codebook_passes h.sub_vectors h.divides h.bits h.rows.1 h.width.1 h.float32.1,
          b,
        )
        refl
