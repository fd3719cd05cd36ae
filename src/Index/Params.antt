-- ===== src/Index/Params.antt =====
-- The build parameters of a vector index (`build_vector_params_with_models`): what each variant
-- requires, and the defaults of fields left at zero. A model is its length with what Lance reads.
use lance_c.Prelude.{
  ℕ, Option, none, some, Bool, Result, ok, err, ◌>>=◌, ◌>>◌, guard, ◌||◌, ◌==◌, if◌then◌else◌,
}
use lance_c.Ffi.LastError.{LanceError}
use lance_c.Scanner.Config.{invalid}
use lance_c.Index.{
  VectorType, ivf_flat, ivf_sq, ivf_pq, ivf_hnsw_sq, ivf_hnsw_pq, ivf_hnsw_flat, Metric,
}

pub record VectorParams : Type 0 where
  pub index_type : VectorType
  pub metric : Metric
  pub num_partitions : ℕ
  pub num_sub_vectors : ℕ
  pub num_bits : ℕ
  pub max_iterations : ℕ
  pub hnsw_m : ℕ
  pub hnsw_ef_construction : ℕ
  pub sample_rate : ℕ

-- What the defaults of Lance are: `IvfBuildParams::new`, `SQBuildParams::default` and
-- `HnswBuildParams::default`.
pub record Defaults : Type 0 where
  pub ivf_max_iters : ℕ
  pub ivf_sample_rate : ℕ
  pub sq_num_bits : ℕ
  pub sq_sample_rate : ℕ
  pub ef_construction : ℕ

-- What the parameters need of Lance and of the arrays: the defaults, and the length of centroids.
pub record Lance : Type 1 where
  pub Centroids : Type 0
  pub Codebook : Type 0
  pub length_of : Centroids → ℕ
  pub defaults : Defaults

pub record Ivf (x : Lance) : Type 0 where
  pub num_partitions : ℕ
  pub centroids : Option x.Centroids
  pub max_iters : ℕ
  pub sample_rate : ℕ

pub record Pq (x : Lance) : Type 0 where
  pub num_sub_vectors : ℕ
  pub num_bits : ℕ
  pub max_iters : ℕ
  pub codebook : Option x.Codebook

pub record Sq : Type 0 where
  pub num_bits : ℕ
  pub sample_rate : ℕ

pub record Hnsw : Type 0 where
  pub m : ℕ
  pub ef_construction : ℕ

-- `VectorIndexParams` of Lance, by the constructor that the code calls
pub data CoreParams (x : Lance) : Type 0 where
  flat : Metric → Ivf x → CoreParams x
  pq : Metric → Ivf x → Pq x → CoreParams x
  sq : Metric → Ivf x → Sq → CoreParams x
  hnsw_flat : Metric → Ivf x → Hnsw → CoreParams x
  hnsw_pq : Metric → Ivf x → Hnsw → Pq x → CoreParams x
  hnsw_sq : Metric → Ivf x → Hnsw → Sq → CoreParams x

abbrev pub require_field : ℕ → Result LanceError ℕ
require_field value =
    if value == 0 then err (invalid "is required for this index type and must be > 0") else ok value

-- a field that is left at zero takes the default
abbrev pub or_default : ℕ → ℕ → ℕ
or_default value default = if value == 0 then default else value

abbrev pub is_pq_bits : ℕ → Bool
is_pq_bits n = (n == 4) || (n == 8)

module _ (x : Lance) where
  abbrev pub check_length : Option x.Centroids → ℕ → Result LanceError (Unit {0})
  check_length none n = ok tt
  check_length (some c) n =
      guard (x.length_of c == n) (invalid "ivf_centroids length does not match num_partitions")

  unfoldable pub build_ivf : VectorParams → Option x.Centroids → Result LanceError (Ivf x)
  build_ivf p centroids = do
    num_partitions ← require_field p.num_partitions
    check_length centroids num_partitions
    ok (record {
      num_partitions = num_partitions;
      centroids = centroids;
      max_iters = or_default p.max_iterations x.defaults.ivf_max_iters;
      sample_rate = or_default p.sample_rate x.defaults.ivf_sample_rate;
    })

  unfoldable pub build_pq : VectorParams → Option x.Codebook → Result LanceError (Pq x)
  build_pq p codebook = do
    num_sub_vectors ← require_field p.num_sub_vectors
    let num_bits = or_default p.num_bits 8
    guard (is_pq_bits num_bits) (invalid "num_bits must be 4 or 8 for Lance PQ indexes")
    ok (record {
      num_sub_vectors = num_sub_vectors;
      num_bits = num_bits;
      max_iters = or_default p.max_iterations 50;
      codebook = codebook;
    })

  unfoldable pub build_sq : VectorParams → Result LanceError Sq
  build_sq p = do
    guard ((p.num_bits == 0) || (p.num_bits == 8))
        (invalid "num_bits must be 0 or 8 for Lance SQ indexes")
    ok (record {
      num_bits = or_default p.num_bits x.defaults.sq_num_bits;
      sample_rate = or_default p.sample_rate x.defaults.sq_sample_rate;
    })

  unfoldable pub build_hnsw : VectorParams → Result LanceError Hnsw
  build_hnsw p = do
    m ← require_field p.hnsw_m
    ok (record {
      m = m;
      ef_construction = or_default p.hnsw_ef_construction x.defaults.ef_construction;
    })

  abbrev pub build_variant :
      VectorType
      → VectorParams
      → Option x.Centroids
      → Option x.Codebook
      → Result LanceError (CoreParams x)
  build_variant ivf_flat p centroids codebook = do
    ivf ← build_ivf p centroids
    ok (flat p.metric ivf)
  build_variant ivf_pq p centroids codebook = do
    ivf ← build_ivf p centroids
    q ← build_pq p codebook
    ok (pq p.metric ivf q)
  build_variant ivf_sq p centroids codebook = do
    ivf ← build_ivf p centroids
    q ← build_sq p
    ok (sq p.metric ivf q)
  build_variant ivf_hnsw_flat p centroids codebook = do
    ivf ← build_ivf p centroids
    hnsw ← build_hnsw p
    ok (hnsw_flat p.metric ivf hnsw)
  build_variant ivf_hnsw_pq p centroids codebook = do
    ivf ← build_ivf p centroids
    hnsw ← build_hnsw p
    q ← build_pq p codebook
    ok (hnsw_pq p.metric ivf hnsw q)
  build_variant ivf_hnsw_sq p centroids codebook = do
    ivf ← build_ivf p centroids
    hnsw ← build_hnsw p
    q ← build_sq p
    ok (hnsw_sq p.metric ivf hnsw q)

  -- `build_vector_params_with_models`
  unfoldable pub build_vector_params :
      VectorParams → Option x.Centroids → Option x.Codebook → Result LanceError (CoreParams x)
  build_vector_params p centroids codebook = build_variant p.index_type p centroids codebook
