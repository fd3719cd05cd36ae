-- ===== src/Segment/Models/Accepted.antt =====
-- What the models of an accepted vector builder are.
use lance_c.Prelude.{
  ℕ, ◌*◌, ◌%◌, ◌/◌, ◌^◌, pos, z_eq, z_eq→eq, as_i32, text, text_eq, text_eq→eq, Option, none, some,
  true, not, List, ok, ok_or, ok_of_bind, past_guard, ◌≡◌, ap, ◌∙◌, ◌==◌, ◌&&◌, ◌||◌, is_some,
  arith, some_of_ok_or,
}
use lance_c.Scanner.Config.{invalid}
use lance_c.Scanner.Limits.{checked_mul}
use lance_c.Index.{metric_code}
use lance_c.Index.Params.{VectorParams, Defaults, or_default, is_pq_bits}
use lance_c.Segment.Options.{BuildMode}
use lance_c.Segment.Model.Borrow.{Model}
use lance_c.Segment.Provenance.{Uuids, Provenance}
use lance_c.Segment.Models.{
  Given, is_pq, is_value, has_elements, checked_shl, check_mode, check_centroid_provenance,
  trained_with, check_codebook_provenance, check_centroids, check_pq, check_codebook, check_models,
}

-- Centroids that fit the parameters and the column.
pub record CentroidsFit {V : Type 0} {u : Uuids} (p : VectorParams) (dim : ℕ) (g : Given V u)
    : Type 0 where
  pub kind : g.1.kind ≡ text "ivf"
  pub metric : g.1.metric ≡ pos (metric_code p.metric)
  pub dimension : g.1.dimension ≡ dim
  pub width : g.0.value_length ≡ as_i32 dim
  pub float32 : g.0.float32 ≡ true
  pub partitions : g.0.len ≡ p.num_partitions

-- A codebook that fits them too, and the centroids that it was trained with.
pub record CodebookFits {V : Type 0} {u : Uuids} (p : VectorParams) (dim : ℕ)
    (c : Option (Given V u)) (g : Given V u) : Type 0 where
  pub product : is_pq p.index_type ≡ true
  pub kind : g.1.kind ≡ text "pq"
  pub metric : g.1.metric ≡ pos (metric_code p.metric)
  pub dimension : g.1.dimension ≡ dim
  pub centroids : trained_with c g.1.ivf_id ≡ true
  pub bits : is_pq_bits (or_default p.num_bits 8) ≡ true
  pub divides : dim % p.num_sub_vectors ≡ 0
  pub rows : g.0.len ≡ p.num_sub_vectors * 2 ^ or_default p.num_bits 8
  pub width : g.0.value_length ≡ as_i32 (dim / p.num_sub_vectors)

module _ {V : Type 0} {u : Uuids} where
  centroids_fit :
      (p : VectorParams) (dim : ℕ) (g : Given V u)
      → check_centroid_provenance p dim (some g) ≡ ok tt
      → check_centroids p dim (some g) ≡ ok tt
      → CentroidsFit p dim g
  centroids_fit p dim (m, v) h k = record {
    kind = text_eq→eq v.kind (text "ivf") (ground (arith, h));
    metric = z_eq→eq v.metric (pos (metric_code p.metric)) (ground (arith, h));
    dimension = ground (arith, h);
    width = z_eq→eq m.value_length (as_i32 dim) (ground (arith, k));
    float32 = ground (arith, k);
    partitions = ground (arith, k);
  }

  codebook_provenance :
      (p : VectorParams) (dim : ℕ) (c : Option (Given V u)) (m : Model V) (v : Provenance u)
      → check_codebook_provenance p dim c (some (m, v)) ≡ ok tt
      → (v.kind ≡ text "pq")
        × (v.metric ≡ pos (metric_code p.metric))
        × (v.dimension ≡ dim)
        × (trained_with c v.ivf_id ≡ true)
  codebook_provenance p dim c m v h =
      let (a, k) =
        past_guard
          (text_eq v.kind (text "pq")
            && z_eq v.metric (pos (metric_code p.metric))
            && (v.dimension == dim)
            && is_value v.num_sub_vectors p.num_sub_vectors
            && is_value v.num_bits (or_default p.num_bits 8))
          _ _ h in
      (
        text_eq→eq v.kind (text "pq") (ground (arith, a)),
        z_eq→eq v.metric (pos (metric_code p.metric)) (ground (arith, a)),
        ground (arith, a),
        ground (arith, k),
      )

  codebook_shape :
      (p : VectorParams) (dim : ℕ) (m : Model V) (v : Provenance u) {values : Option V}
      → check_codebook p dim (some (m, v)) ≡ ok values
      → (is_pq_bits (or_default p.num_bits 8) ≡ true)
        × (dim % p.num_sub_vectors ≡ 0)
        × (m.len ≡ p.num_sub_vectors * 2 ^ or_default p.num_bits 8)
        × (m.value_length ≡ as_i32 (dim / p.num_sub_vectors))
  unfolding checked_mul
  codebook_shape p dim m v h =
      let bits = or_default p.num_bits 8 in
      let (a, h1) =
        past_guard (not (p.num_sub_vectors == 0) && (dim % p.num_sub_vectors == 0)) _ _ h in
      let (b, h2) = past_guard (is_pq_bits bits) _ _ h1 in
      let (w, c, h3) =
        ok_of_bind (ok_or (checked_shl bits) (invalid "1 << num_bits overflows usize")) _ h2 in
      let (n, d, h4) =
        ok_of_bind
          (ok_or (checked_mul p.num_sub_vectors w)
            (invalid "num_sub_vectors * codewords overflows usize"))
          _ h3 in
      let (e, _) =
        past_guard ((m.len == n) && has_elements m.value_length m.float32 (dim / p.num_sub_vectors))
          _ _ h4 in
      let f : w ≡ 2 ^ bits = ground (arith, some_of_ok_or _ _ c) in
      let g : n ≡ p.num_sub_vectors * w = ground (arith, some_of_ok_or _ _ d) in
      (
        b,
        ground (arith, a),
        (let q : m.len ≡ n = ground (arith, e) in q ∙ g ∙ ap (λ k. p.num_sub_vectors * k) f),
        z_eq→eq m.value_length (as_i32 (dim / p.num_sub_vectors)) (ground (arith, e)),
      )

  codebook_fit :
      (p : VectorParams) (dim : ℕ) (c : Option (Given V u)) (g : Given V u) {values : Option V}
      → check_codebook_provenance p dim c (some g) ≡ ok tt
      → check_pq p c (some g) ≡ ok tt
      → check_codebook p dim (some g) ≡ ok values
      → CodebookFits p dim c g
  unfolding check_pq
  codebook_fit p dim c (m, v) h k l =
      let (a, b, d, e) = codebook_provenance p dim c m v h in
      let (f, q, r, w) = codebook_shape p dim m v l in
      record {
        product = ground (arith, k);
        kind = a;
        metric = b;
        dimension = d;
        centroids = e;
        bits = f;
        divides = q;
        rows = r;
        width = w;
      }

  abbrev Each : (Given V u → Type 0) → Option (Given V u) → Type 0
  Each P none = Unit
  Each P (some g) = P g

  fit_centroids :
      (p : VectorParams) (dim : ℕ) (c : Option (Given V u))
      → check_centroid_provenance p dim c ≡ ok tt
      → check_centroids p dim c ≡ ok tt
      → Each (CentroidsFit p dim) c
  fit_centroids p dim none h k = tt
  fit_centroids p dim (some g) h k = centroids_fit p dim g h k

  fit_codebook :
      (p : VectorParams) (dim : ℕ) (c b : Option (Given V u)) {values : Option V}
      → check_codebook_provenance p dim c b ≡ ok tt
      → check_pq p c b ≡ ok tt
      → check_codebook p dim b ≡ ok values
      → Each (CodebookFits p dim c) b
  fit_codebook p dim c none h k l = tt
  fit_codebook p dim c (some g) h k l = codebook_fit p dim c g h k l

  -- A vector builder is accepted only with models that fit: supplied centroids come from an IVF
  -- training of this metric and dimension and are as many as the partitions; a supplied codebook is
  -- for a product-quantizing index, was trained with these centroids, and has the rows and the width
  -- that the sub-vectors and bits ask for.
  pub check_models-fit :
      (defaults : Defaults) (p : VectorParams) (dim : ℕ) (mode : BuildMode) (fragments : List ℕ)
      (ids : Option (List ℕ)) (c b : Option (Given V u)) {values : Option V}
      → check_models defaults p dim mode fragments ids c b ≡ ok values
      → Each (CentroidsFit p dim) c × Each (CodebookFits p dim c) b
  unfolding check_models
  check_models-fit defaults p dim mode fragments ids c b h =
      let (_, h0, h1) = ok_of_bind (check_centroid_provenance p dim c) _ h in
      let (_, k0, h2) = ok_of_bind (check_codebook_provenance p dim c b) _ h1 in
      let (_, l0, h3) = ok_of_bind (check_centroids p dim c) _ h2 in
      let (_, m0, h4) = ok_of_bind (check_pq p c b) _ h3 in
      let (_, _, h5) = ok_of_bind (check_mode mode (is_some c || is_some b)) _ h4 in
      let (_, n0, _) = ok_of_bind (check_codebook p dim b) _ h5 in
      (fit_centroids p dim c h0 l0, fit_codebook p dim c b k0 m0 n0)
