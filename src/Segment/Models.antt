-- ===== src/Segment/Models.antt =====
-- The models of a vector builder (`new_vector_builder_inner`): what is required of their provenance
-- and shape, of the mode, and of the fragments.
pub mod Accepted
pub mod Trained
use lance_c.Prelude.{
  ℕ, ◌*◌, ◌%◌, ◌/◌, ◌^◌, ℤ, pos, z_eq, as_i32, Text, text, text_eq, Option, none, some, Bool, true,
  false, not, List, all, Result, ok, err, ◌>>=◌, ◌>>◌, guard, ok_or, ◌==◌, ltb, ◌&&◌, ◌||◌,
  if◌then◌else◌, is_some,
}
use lance_c.Ffi.LastError.{LanceError}
use lance_c.Scanner.Config.{invalid}
use lance_c.Scanner.Limits.{checked_mul}
use lance_c.Index.{VectorType, ivf_pq, ivf_hnsw_pq, Metric, dot, metric_code}
use lance_c.Index.Params.{
  VectorParams, Defaults, Lance, or_default, is_pq_bits, build_vector_params,
}
use lance_c.Segment.Options.{BuildMode, auto, local_train, precomputed, mem, existing}
use lance_c.Segment.Model.Borrow.{Model}
use lance_c.Segment.Provenance.{Uuids, Provenance}

-- a supplied model with its provenance
abbrev pub Given : Type 0 → Uuids → Type 0
Given V u = Model V × Provenance u

abbrev pub is_pq : VectorType → Bool
is_pq ivf_pq = true
is_pq ivf_hnsw_pq = true
is_pq _ = false

abbrev pub is_dot : Metric → Bool
is_dot dot = true
is_dot _ = false

abbrev pub is_value : Option ℕ → ℕ → Bool
is_value none n = false
is_value (some m) n = m == n

abbrev pub has_elements : ℤ → Bool → ℕ → Bool
has_elements value_length float32 n = z_eq value_length (as_i32 n) && float32

-- `1_usize.checked_shl(num_bits)`
abbrev pub checked_shl : ℕ → Option ℕ
checked_shl bits = if ltb bits 64 then some (2 ^ bits) else none

-- of two lists, taken as sets
abbrev pub same_set : List ℕ → List ℕ → Bool
same_set xs ys = all (λ x. mem x ys) xs && all (λ y. mem y xs) ys

abbrev pub check_mode : BuildMode → Bool → Result LanceError (Unit {0})
check_mode auto has_models = ok tt
check_mode local_train has_models =
    guard (not has_models) (invalid "mode LOCAL_TRAIN does not accept precomputed model arrays")
check_mode precomputed has_models =
    guard has_models (invalid "mode PRECOMPUTED requires precomputed model arrays")

abbrev pub check_subset :
    VectorParams → Bool → List ℕ → Option (List ℕ) → Result LanceError (Unit {0})
check_subset p has_codebook fragments none = ok tt
check_subset p has_codebook fragments (some ids) =
    guard
      (not (is_pq p.index_type && is_dot p.metric && has_codebook)
        || same_set ids (existing fragments))
      (invalid "pq_codebook is supplied for metric=DOT and an effective strict fragment subset")

-- what the parameters of index.rs see of these models
abbrev pub lance_of : Type 0 → Defaults → Lance
lance_of V defaults = record {
  Centroids = Model V;
  Codebook = V;
  length_of = λ m. m.len;
  defaults = defaults;
}

module _ {V : Type 0} {u : Uuids} where
  abbrev pub check_centroid_provenance :
      VectorParams → ℕ → Option (Given V u) → Result LanceError (Unit {0})
  check_centroid_provenance p dim none = ok tt
  check_centroid_provenance p dim (some (m, v)) =
      guard
        (text_eq v.kind (text "ivf")
          && z_eq v.metric (pos (metric_code p.metric))
          && (v.dimension == dim))
        (invalid "ivf_centroids provenance must be kind=ivf with this metric and dimension")

  abbrev pub trained_with : Option (Given V u) → u.Uuid → Bool
  trained_with none id = false
  trained_with (some (m, v)) id = u.same v.ivf_id id

  abbrev pub check_codebook_provenance :
      VectorParams → ℕ → Option (Given V u) → Option (Given V u) → Result LanceError (Unit {0})
  check_codebook_provenance p dim centroids none = ok tt
  check_codebook_provenance p dim centroids (some (m, v)) = do
    guard
        (text_eq v.kind (text "pq")
          && z_eq v.metric (pos (metric_code p.metric))
          && (v.dimension == dim)
          && is_value v.num_sub_vectors p.num_sub_vectors
          && is_value v.num_bits (or_default p.num_bits 8))
        (invalid "pq_codebook provenance does not match")
    guard (trained_with centroids v.ivf_id)
        (invalid "pq_codebook was not trained with the supplied ivf_centroids")

  abbrev pub check_centroids : VectorParams → ℕ → Option (Given V u) → Result LanceError (Unit {0})
  check_centroids p dim none = ok tt
  check_centroids p dim (some (m, v)) = do
    guard (has_elements m.value_length m.float32 dim)
        (invalid "ivf_centroids must have type FixedSizeList<Float32>[dim]")
    guard (m.len == p.num_partitions) (invalid "ivf_centroids length does not match num_partitions")

  unfoldable pub check_pq :
      VectorParams → Option (Given V u) → Option (Given V u) → Result LanceError (Unit {0})
  check_pq p centroids codebook = do
    guard (not (is_pq p.index_type) || is_pq_bits (or_default p.num_bits 8))
        (invalid "num_bits must be 4 or 8 for Lance PQ indexes")
    guard (is_pq p.index_type || not (is_some codebook))
        (invalid "pq_codebook is not valid for this vector index type")
    guard
        (not (is_pq p.index_type)
          || (is_some centroids && is_some codebook)
          || (not (is_some centroids) && not (is_some codebook)))
        (invalid "precomputed PQ segment builds require both ivf_centroids and pq_codebook")

  abbrev pub check_codebook : VectorParams → ℕ → Option (Given V u) → Result LanceError (Option V)
  check_codebook p dim none = ok none
  check_codebook p dim (some (m, v)) = do
    guard (not (p.num_sub_vectors == 0) && (dim % p.num_sub_vectors == 0))
        (invalid "dimension must be divisible by num_sub_vectors")
    guard (is_pq_bits (or_default p.num_bits 8))
        (invalid "num_bits must be 4 or 8 for Lance PQ indexes")
    codewords ←
        ok_or (checked_shl (or_default p.num_bits 8)) (invalid "1 << num_bits overflows usize")
    expected_len ←
        ok_or (checked_mul p.num_sub_vectors codewords)
          (invalid "num_sub_vectors * codewords overflows usize")
    guard
        ((m.len == expected_len) && has_elements m.value_length m.float32 (dim / p.num_sub_vectors))
        (invalid "pq_codebook must be FixedSizeList<Float32> with this length and list_size")
    ok (some m.values)

  abbrev pub model_of : Option (Given V u) → Option (Model V)
  model_of none = none
  model_of (some (m, v)) = some m

  -- All tests on the models, in order; the codebook's values if there is one.
  unfoldable pub check_models :
      Defaults
      → VectorParams
      → ℕ
      → BuildMode
      → List ℕ
      → Option (List ℕ)
      → Option (Given V u)
      → Option (Given V u)
      → Result LanceError (Option V)
  unfolding check_pq
  check_models defaults p dim mode fragments ids centroids codebook = do
    check_centroid_provenance p dim centroids
    check_codebook_provenance p dim centroids codebook
    check_centroids p dim centroids
    check_pq p centroids codebook
    check_mode mode (is_some centroids || is_some codebook)
    values ← check_codebook p dim codebook
    core ← build_vector_params (lance_of V defaults) p (model_of centroids) values
    check_subset p (is_some values) fragments ids
    ok values
