-- ===== src/Segment/Train/Build.antt =====
-- Models from the trainers, passed on with the metadata of their schemas, build a PQ index.
use lance_c.Prelude.{
  ℕ, ◌<◌, ◌^◌, ◌%◌, ◌/◌, ◌==◌, as_i32, ℤ, pos, Text, some, none, true, ok, ok_inj, ◌≡◌, ◌≢◌, sym,
  ap, ◌∙◌, subst, arith, List,
}
use lance_c.Helpers.{Map}
use lance_c.Index.{metric_code}
use lance_c.Index.Accepted.{uses_hnsw}
use lance_c.Index.Params.{VectorParams, Defaults, or_default, is_pq_bits}
use lance_c.Segment.Options.{BuildMode}
use lance_c.Segment.Model.Borrow.{Model}
use lance_c.Segment.Provenance.{Provenance, model_provenance}
use lance_c.Segment.Provenance.RoundTrip.{ivf_provenance, pq_provenance, model_provenance-metadata}
use lance_c.Segment.Models.{is_pq, check_mode, check_models}
use lance_c.Segment.Models.Trained.{check_models_pass}
use lance_c.Segment.Train.{Trainer, CommonInput, CommonArgs, train_ivf_model, train_pq_model}
use lance_c.Segment.Train.Shape.{train_ivf_model-Ivf, train_pq_model-Pq}

-- What is relied on of Lance and of the `uuid` crate: lists are Float32 of the width asked for, and
-- a UUID is equal to itself and read back from its text.
pub record Reliable (t : Trainer) : Type 0 where
  pub uuid_text : (id : t.uuids.Uuid) → t.uuids.parse_str (t.uuids.print id) ≡ some id
  pub uuid_same : (id : t.uuids.Uuid) → t.uuids.same id id ≡ true
  pub lists :
      (w : ℤ) (v : t.V) (m : Model t.V)
      → t.make_lists w v ≡ ok m
      → (m.value_length ≡ w) × (m.float32 ≡ true)
  pub centroids :
      (c : CommonInput t) (n : ℕ) (m : Model t.V)
      → t.build_ivf_model c.dataset c.column c.dim c.metric n c.fragments ≡ ok (some m)
      → m.float32 ≡ true

small_bits : (bits : ℕ) → is_pq_bits bits ≡ true → bits < 2 ^ 32
small_bits bits h = ground (arith, h)

module _ (t : Trainer) where
  -- what the parameters of an index take over from the trainings
  pub record Follows (p : VectorParams) (c : CommonInput t) : Type 0 where
    pub product : is_pq p.index_type ≡ true
    pub metric : p.metric ≡ c.metric
    pub graph : uses_hnsw p.index_type ≡ true → p.hnsw_m ≢ 0

  -- Train centroids, read the provenance of their schema, train a codebook on them, and read that of
  -- its schema: a PQ index over the whole dataset, with these parameters and a mode that takes
  -- models, accepts both, and gets the values of the codebook.
  pub trained_models_build :
      Reliable t
      → (defaults : Defaults) (p : VectorParams) (mode : BuildMode) (fragments : List ℕ)
        (a b : CommonArgs t) (id : t.uuids.Uuid) (c d : CommonInput t) (mc mb : Model t.V)
        (meta_c meta_b : Map Text) (vc vb : Provenance t.uuids)
      → (c.dim < 2 ^ 64) × (d.dim < 2 ^ 64) × (p.num_sub_vectors < 2 ^ 32)
      → Follows p c
      → check_mode mode true ≡ ok tt
      → train_ivf_model t p.num_partitions a id ≡ ok (c, mc, meta_c)
      → model_provenance t.uuids meta_c ≡ ok vc
      → train_pq_model t p.num_sub_vectors (or_default p.num_bits 8) b (ok vc) (ok mc)
        ≡ ok (d, mb, meta_b)
      → model_provenance t.uuids meta_b ≡ ok vb
      → check_models defaults p c.dim mode fragments none (some (mc, vc)) (some (mb, vb))
        ≡ ok (some mb.values)
  trained_models_build r defaults p mode fragments a b id c d mc mb meta_c meta_b vc vb (e, f, g) k
        l h i j m =
      let x = train_ivf_model-Ivf t p.num_partitions a id c mc meta_c h in
      let y =
        train_pq_model-Pq t p.num_sub_vectors (or_default p.num_bits 8) b vc mc d mb meta_b j in
      let bits = or_default p.num_bits 8 in
      let z = small_bits bits y.some_bits in
      let q : vc ≡ ivf_provenance t.uuids c.metric c.dim id = ok_inj (
        sym i
        ∙ ap (model_provenance t.uuids) x.metadata
        ∙ (model_provenance-metadata t.uuids c.metric c.dim id p.num_sub_vectors bits e g z
            (r.uuid_text id)).0) in
      let n : vb ≡ pq_provenance t.uuids d.metric d.dim vc.ivf_id p.num_sub_vectors bits = ok_inj (
        sym m
        ∙ ap (model_provenance t.uuids) y.metadata
        ∙ (model_provenance-metadata t.uuids d.metric d.dim vc.ivf_id p.num_sub_vectors bits f g z
            (r.uuid_text vc.ivf_id)).1) in
      let same_dim : d.dim ≡ c.dim = sym y.dimension ∙ ap (λ v. v.dimension) q in
      let metric : vc.metric ≡ pos (metric_code p.metric) =
        ap (λ v. v.metric) q ∙ ap (λ o. pos (metric_code o)) (sym k.metric) in
      let (w, lists) = y.values in
      let (width, float32) = r.lists _ w mb lists in
      check_models_pass p c.dim mc mb vc vb defaults mode fragments
        (record {
          product = k.product;
          partitions = x.positive;
          sub_vectors = y.positive;
          divides = subst (λ o. (o % p.num_sub_vectors == 0) ≡ true) same_dim y.divides;
          bits = y.some_bits;
          graph = k.graph;
          kind = (ap (λ v. v.kind) q, ap (λ v. v.kind) n);
          metric = (metric, ap (λ v. v.metric) n ∙ sym y.metric ∙ metric);
          dimension = (ap (λ v. v.dimension) q, ap (λ v. v.dimension) n ∙ same_dim);
          codes = (ap (λ v. v.num_sub_vectors) n, ap (λ v. v.num_bits) n);
          same = ap (t.uuids.same vc.ivf_id) (ap (λ v. v.ivf_id) n) ∙ r.uuid_same vc.ivf_id;
          rows = (x.len, y.rows);
          width = (x.width, width ∙ ap (λ o. as_i32 (o / p.num_sub_vectors)) same_dim);
          float32 = (r.centroids c p.num_partitions mc x.built, float32);
        })
        l
