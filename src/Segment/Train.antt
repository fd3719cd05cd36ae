-- ===== src/Segment/Train.antt =====
-- index_model.rs: training of centroids and codebooks. The training itself is Lance's.
pub mod Shape
pub mod Build
use lance_c.Prelude.{
  ℕ, ◌*◌, ◌%◌, ◌/◌, ◌^◌, ℤ, pos, z_eq, as_i32, String, Text, text, text_eq, Option, none, some,
  Bool, true, false, not, List, Result, ok, err, ◌>>=◌, ◌>>◌, guard, ok_or, ◌==◌, ltb, ◌&&◌, ◌||◌,
  if◌then◌else◌, is_some,
}
use lance_c.Ffi.Outcome.{done}
use lance_c.Ffi.LastError.{LanceError, ErrorKind}
use lance_c.Scanner.Config.{invalid}
use lance_c.Scanner.Limits.{checked_mul}
use lance_c.Scanner.Setters.{Slice}
use lance_c.Helpers.{is_null, CString, Map, required_string}
use lance_c.Index.{Metric, l2, cosine, dot, hamming, metric_code, metric_from_c}
use lance_c.Index.Params.{is_pq_bits}
use lance_c.Segment.Options.{parse_fragments}
use lance_c.Segment.Model.Borrow.{Model}
use lance_c.Segment.Provenance.{Uuids, Provenance, ivf_metadata, pq_metadata}
use lance_c.Segment.Models.{Given, checked_shl, has_elements}

-- What the trainers ask of the dataset and of Lance. `D` is a snapshot.
pub record Trainer : Type 1 where
  pub D : Type 0
  pub V : Type 0
  pub uuids : Uuids
  pub fragments : D → List ℕ
  pub vector_dim : D → String → Result LanceError ℕ
  pub is_float32 : D → String → Result LanceError Bool
  pub validate_distance : Metric → Result LanceError (Unit {0})
  pub build_ivf_model :
      D → String → ℕ → Metric → ℕ → Option (List ℕ) → Result LanceError (Option (Model V))
  pub build_pq_model :
      D → String → ℕ → Metric → ℕ → ℕ → Option (Model V) → Option (List ℕ) → Result LanceError V
  pub make_lists : ℤ → V → Result LanceError (Model V)

abbrev pub internal : String → LanceError
internal message = record { kind = ErrorKind.otherwise; display = done (text message) }

pub record CommonInput (t : Trainer) : Type 0 where
  pub dataset : t.D
  pub column : String
  pub dim : ℕ
  pub metric : Metric
  pub fragments : Option (List ℕ)

-- The pointers that must be there, and whether the two output structs are empty.
pub record CommonArgs (t : Trainer) : Type 0 where
  pub dataset : Option t.D
  pub column : CString
  pub metric : ℤ
  pub fragment_ids : Slice
  pub out_array : Option Bool
  pub out_schema : Option Bool

abbrev pub is_empty : Option Bool → Bool
is_empty none = false
is_empty (some b) = b

abbrev pub ivf_residual : {V : Type 0} → Metric → Model V → Option (Model V)
ivf_residual l2 centroids = some centroids
ivf_residual cosine centroids = some centroids
ivf_residual dot centroids = none
ivf_residual hamming centroids = none

module _ (t : Trainer) where
  unfoldable pub parse_common : CommonArgs t → Result LanceError (CommonInput t)
  parse_common a = do
    dataset ←
        ok_or a.dataset (invalid "dataset, column, out_array, and out_schema must not be NULL")
    guard (not (is_null a.column) && is_some a.out_array && is_some a.out_schema)
        (invalid "dataset, column, out_array, and out_schema must not be NULL")
    guard (is_empty a.out_array && is_empty a.out_schema)
        (invalid "out_array and out_schema must be empty (release callbacks must be NULL)")
    metric ← metric_from_c a.metric
    column ← required_string a.column "column must not be NULL or empty"
    dim ← t.vector_dim dataset column
    float32 ← t.is_float32 dataset column
    guard float32 (invalid "column must have Float32 vector elements")
    t.validate_distance metric
    fragments ← parse_fragments (t.fragments dataset) a.fragment_ids
    ok (record {
      dataset = dataset;
      column = column;
      dim = dim;
      metric = metric;
      fragments = fragments;
    })

  -- The model with its metadata, as `export_model` gets them; `id` is the new UUID.
  unfoldable pub train_ivf_model :
      ℕ → CommonArgs t → t.uuids.Uuid → Result LanceError (CommonInput t × Model t.V × Map Text)
  unfolding parse_common
  train_ivf_model num_partitions a id = do
    guard (not (num_partitions == 0)) (invalid "num_partitions must be > 0, got 0")
    c ← parse_common a
    model ← t.build_ivf_model c.dataset c.column c.dim c.metric num_partitions c.fragments
    centroids ← ok_or model (internal "IVF trainer returned no centroids")
    guard ((centroids.len == num_partitions) && z_eq centroids.value_length (as_i32 c.dim))
        (internal "IVF trainer returned another length or list_size")
    ok (c, centroids, ivf_metadata t.uuids c.metric c.dim id)

  -- the training of a codebook on these centroids, with the check of its length
  unfoldable pub train_codebook : ℕ → ℕ → CommonInput t → Model t.V → Result LanceError (Model t.V)
  train_codebook num_sub_vectors num_bits c centroids = do
    values ←
        t.build_pq_model c.dataset c.column c.dim c.metric num_sub_vectors num_bits
          (ivf_residual c.metric centroids) c.fragments
    codebook ← t.make_lists (as_i32 (c.dim / num_sub_vectors)) values
    codewords ← ok_or (checked_shl num_bits) (invalid "1 << num_bits overflows usize")
    expected_len ←
        ok_or (checked_mul num_sub_vectors codewords)
          (invalid "num_sub_vectors * codewords overflows usize")
    guard (codebook.len == expected_len) (internal "PQ trainer returned another length")
    ok codebook

  -- `provenance` is that of the caller's centroids, and `given` what `borrow_model_array` and
  -- `fixed_size_list_model` make of them.
  unfoldable pub train_pq_model :
      ℕ
      → ℕ
      → CommonArgs t
      → Result LanceError (Provenance t.uuids)
      → Result LanceError (Model t.V)
      → Result LanceError (CommonInput t × Model t.V × Map Text)
  unfolding parse_common train_codebook
  train_pq_model num_sub_vectors num_bits a provenance given = do
    guard (not (num_sub_vectors == 0)) (invalid "num_sub_vectors must be > 0, got 0")
    guard (is_pq_bits num_bits) (invalid "num_bits must be 4 or 8 for Lance PQ indexes")
    c ← parse_common a
    guard (c.dim % num_sub_vectors == 0) (invalid "dimension must be divisible by num_sub_vectors")
    v ← provenance
    guard
        (text_eq v.kind (text "ivf")
          && z_eq v.metric (pos (metric_code c.metric))
          && (v.dimension == c.dim))
        (invalid "ivf_centroids provenance must be kind=ivf with this metric and dimension")
    centroids ← given
    guard (not (centroids.len == 0) && has_elements centroids.value_length centroids.float32 c.dim)
        (invalid "ivf_centroids must be a non-empty FixedSizeList<Float32> with list_size dim")
    codebook ← train_codebook num_sub_vectors num_bits c centroids
    ok (c, codebook, pq_metadata t.uuids c.metric c.dim v.ivf_id num_sub_vectors num_bits)
