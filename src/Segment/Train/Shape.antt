-- ===== src/Segment/Train/Shape.antt =====
-- What a training that succeeds returns.
use lance_c.Prelude.{
  ℕ, ◌%◌, ◌/◌, ◌^◌, pos, z_eq, z_eq→eq, as_i32, Text, text, text_eq, some, true, not, ok, ok_or,
  ok_of_bind, past_guard, ok_inj, some_of_ok_or, ◌≡◌, ◌≢◌, refl, sym, ap, subst, ◌∙◌, ◌==◌, ◌&&◌,
  arith, both_true, ==→eq,
}
use lance_c.Scanner.Config.{invalid}
use lance_c.Scanner.Limits.{checked_mul}
use lance_c.Helpers.{Map}
use lance_c.Index.{metric_code}
use lance_c.Index.Params.{is_pq_bits}
use lance_c.Segment.Model.Borrow.{Model}
use lance_c.Segment.Provenance.{Provenance, ivf_metadata, pq_metadata}
use lance_c.Segment.Models.{checked_shl, has_elements}
use lance_c.Segment.Train.{
  Trainer, internal, CommonInput, CommonArgs, ivf_residual, parse_common, train_ivf_model,
  train_pq_model, train_codebook,
}

module _ (t : Trainer) where
  pub record Ivf (n : ℕ) (id : t.uuids.Uuid) (c : CommonInput t) (m : Model t.V) (meta : Map Text)
      : Type 0 where
    pub positive : n ≢ 0
    pub built : t.build_ivf_model c.dataset c.column c.dim c.metric n c.fragments ≡ ok (some m)
    pub len : m.len ≡ n
    pub width : m.value_length ≡ as_i32 c.dim
    pub metadata : meta ≡ ivf_metadata t.uuids c.metric c.dim id

  pub train_ivf_model-Ivf :
      (n : ℕ) (a : CommonArgs t) (id : t.uuids.Uuid) (c : CommonInput t) (m : Model t.V)
      (meta : Map Text)
      → train_ivf_model t n a id ≡ ok (c, m, meta)
      → Ivf n id c m meta
  unfolding train_ivf_model
  train_ivf_model-Ivf n a id c m meta h =
      let (p, h1) = past_guard (not (n == 0)) _ _ h in
      let (d, q, h2) = ok_of_bind (parse_common t a) _ h1 in
      let (o, r, h3) =
        ok_of_bind (t.build_ivf_model d.dataset d.column d.dim d.metric n d.fragments) _ h2 in
      let (k, s, h4) = ok_of_bind (ok_or o (internal "IVF trainer returned no centroids")) _ h3 in
      let (w, h5) = past_guard ((k.len == n) && z_eq k.value_length (as_i32 d.dim)) _ _ h4 in
      let f : Ivf n id d k (ivf_metadata t.uuids d.metric d.dim id) = record {
        positive = ground (arith, p);
        built = r ∙ ap (λ x. ok x) (some_of_ok_or _ _ s);
        len = ground (arith, w);
        width = z_eq→eq k.value_length (as_i32 d.dim) (ground (arith, w));
        metadata = refl;
      } in
      subst (λ x. Ivf n id x.0 x.1 x.2) (ok_inj h5) f

  pub record Pq (n bits : ℕ) (v : Provenance t.uuids) (c : CommonInput t) (m : Model t.V)
      (meta : Map Text) : Type 0 where
    pub positive : n ≢ 0
    pub some_bits : is_pq_bits bits ≡ true
    pub divides : (c.dim % n == 0) ≡ true
    pub metric : v.metric ≡ pos (metric_code c.metric)
    pub dimension : v.dimension ≡ c.dim
    pub values : (w : t.V) × (t.make_lists (as_i32 (c.dim / n)) w ≡ ok m)
    pub rows : checked_mul n (2 ^ bits) ≡ some m.len
    pub metadata : meta ≡ pq_metadata t.uuids c.metric c.dim v.ivf_id n bits

  not_zero : (n : ℕ) → not (n == 0) ≡ true → n ≢ 0
  not_zero n h = ground (arith, h)

  shift : (bits : ℕ) {w : ℕ} → is_pq_bits bits ≡ true → checked_shl bits ≡ some w → w ≡ 2 ^ bits
  shift bits h k = ground (arith, h, k)

  codebook_shape :
      (n bits : ℕ) (c : CommonInput t) (g m : Model t.V)
      → is_pq_bits bits ≡ true
      → train_codebook t n bits c g ≡ ok m
      → ((w : t.V) × (t.make_lists (as_i32 (c.dim / n)) w ≡ ok m))
        × (checked_mul n (2 ^ bits) ≡ some m.len)
  unfolding train_codebook
  codebook_shape n bits c g m b h =
      let (w, _, h1) =
        ok_of_bind
          (t.build_pq_model c.dataset c.column c.dim c.metric n bits (ivf_residual c.metric g)
            c.fragments)
          _ h in
      let (k, q, h2) = ok_of_bind (t.make_lists (as_i32 (c.dim / n)) w) _ h1 in
      let (s, r, h3) =
        ok_of_bind (ok_or (checked_shl bits) (invalid "1 << num_bits overflows usize")) _ h2 in
      let (l, u, h4) =
        ok_of_bind (ok_or (checked_mul n s) (invalid "num_sub_vectors * codewords overflows usize"))
          _ h3 in
      let (x, h5) = past_guard (k.len == l) _ _ h4 in
      let e : k ≡ m = ok_inj h5 in
      (
        (w, q ∙ ap (λ i. ok i) e),
        ap (checked_mul n) (sym (shift bits b (some_of_ok_or _ _ r)))
            ∙ some_of_ok_or _ _ u
            ∙ ap (λ i. some i) (sym (==→eq k.len l x) ∙ ap (λ i. i.len) e),
      )

  provenance_matches :
      (v : Provenance t.uuids) (d : CommonInput t)
      → (text_eq v.kind (text "ivf")
          && z_eq v.metric (pos (metric_code d.metric))
          && (v.dimension == d.dim))
        ≡ true
      → (v.metric ≡ pos (metric_code d.metric)) × (v.dimension ≡ d.dim)
  provenance_matches v d f =
      let (a, b) =
        both_true (text_eq v.kind (text "ivf") && z_eq v.metric (pos (metric_code d.metric)))
          (v.dimension == d.dim) f in
      let (_, c) = both_true (text_eq v.kind (text "ivf")) _ a in
      (z_eq→eq v.metric (pos (metric_code d.metric)) c, ==→eq v.dimension d.dim b)

  pq_of :
      (n bits : ℕ) (v : Provenance t.uuids) (g : Model t.V) (d : CommonInput t) (k : Model t.V)
      → n ≢ 0
      → is_pq_bits bits ≡ true
      → (d.dim % n == 0) ≡ true
      → (v.metric ≡ pos (metric_code d.metric)) × (v.dimension ≡ d.dim)
      → ((w : t.V) × (t.make_lists (as_i32 (d.dim / n)) w ≡ ok k))
        × (checked_mul n (2 ^ bits) ≡ some k.len)
      → Pq n bits v d k (pq_metadata t.uuids d.metric d.dim v.ivf_id n bits)
  pq_of n bits v g d k p b e f r = record {
    positive = p;
    some_bits = b;
    divides = e;
    metric = f.0;
    dimension = f.1;
    values = r.0;
    rows = r.1;
    metadata = refl;
  }

  pub train_pq_model-Pq :
      (n bits : ℕ) (a : CommonArgs t) (v : Provenance t.uuids) (g : Model t.V) (c : CommonInput t)
      (m : Model t.V) (meta : Map Text)
      → train_pq_model t n bits a (ok v) (ok g) ≡ ok (c, m, meta)
      → Pq n bits v c m meta
  unfolding train_pq_model
  train_pq_model-Pq n bits a v g c m meta h =
      let (p, h1) = past_guard (not (n == 0)) _ _ h in
      let (b, h2) = past_guard (is_pq_bits bits) _ _ h1 in
      let (d, _, h3) = ok_of_bind (parse_common t a) _ h2 in
      let (e, h4) = past_guard (d.dim % n == 0) _ _ h3 in
      let (f, h5) =
        past_guard
          (text_eq v.kind (text "ivf")
            && z_eq v.metric (pos (metric_code d.metric))
            && (v.dimension == d.dim))
          _ _ h4 in
      let (_, h6) =
        past_guard (not (g.len == 0) && has_elements g.value_length g.float32 d.dim) _ _ h5 in
      let (k, q, h7) = ok_of_bind (train_codebook t n bits d g) _ h6 in
      subst (λ i. Pq n bits v i.0 i.1 i.2) (ok_inj h7)
        (pq_of n bits v g d k (not_zero n p) b e (provenance_matches v d f)
          (codebook_shape n bits d g k b q))
