-- ===== src/Segment/Builder.antt =====
-- The single-use builder of an index segment: its constructors and its calls. Lance builds the index.
pub mod Calls
pub mod Once
use lance_c.Prelude.{
  ℕ, ℤ, String, Option, none, some, Bool, true, false, not, List, [], ◌∷◌, ◌++◌, Result, ok, err,
  ◌>>=◌, ◌>>◌, guard, ok_or, ◌&&◌, is_some, if◌then◌else◌, Text,
}
use lance_c.Ffi.Outcome.{done}
use lance_c.Ffi.LastError.{LanceError}
use lance_c.Scanner.Config.{invalid}
use lance_c.Helpers.{is_null, CString, parse_c_string, required_string}
use lance_c.Index.{ScalarType, VectorType, Metric, scalar_from_c, vector_from_c, metric_from_c}
use lance_c.Index.Params.{VectorParams, Defaults, CoreParams, build_vector_params}
use lance_c.Segment.Schema.{Heap}
use lance_c.Segment.Options.{BuildMode, BuildOptions, ParsedOptions, parse_options}
use lance_c.Segment.Model.{Field}
use lance_c.Segment.Model.Borrow.{Model, Arrow, field_of, borrow_model_array, fixed_size_list_model}
use lance_c.Segment.Provenance.{Uuids, Provenance, model_provenance}
use lance_c.Segment.Models.{Given, lance_of, model_of, check_models}
use lance_c.Segment.Train.{internal}

-- What the builder needs from other libraries. `D` is a snapshot, `Metadata` what Lance returns.
pub record Engine : Type 1 where
  pub arrow : Arrow
  pub uuids : Uuids
  pub D : Type 0
  pub Callback : Type 0
  pub Metadata : Type 0
  pub fragments : D → List ℕ
  pub vector_dim : D → String → Result LanceError ℕ
  pub defaults : Defaults
  pub encode : Metadata → List ℕ

-- `LanceVectorIndexSegmentParams`, whose enums are still integers
pub record RawParams : Type 0 where
  pub index_type : ℤ
  pub metric : ℤ
  pub num_partitions : ℕ
  pub num_sub_vectors : ℕ
  pub num_bits : ℕ
  pub max_iterations : ℕ
  pub hnsw_m : ℕ
  pub hnsw_ef_construction : ℕ
  pub sample_rate : ℕ

unfoldable pub parse_params : RawParams → Result LanceError VectorParams
parse_params p = do
  index_type ← vector_from_c p.index_type
  metric ← metric_from_c p.metric
  ok (record {
    index_type = index_type;
    metric = metric;
    num_partitions = p.num_partitions;
    num_sub_vectors = p.num_sub_vectors;
    num_bits = p.num_bits;
    max_iterations = p.max_iterations;
    hnsw_m = p.hnsw_m;
    hnsw_ef_construction = p.hnsw_ef_construction;
    sample_rate = p.sample_rate;
  })

pub data SegmentKind (V : Type 0) : Type 0 where
  scalar : ScalarType → Option String → SegmentKind V
  vector : VectorParams → Option (Model V) → Option V → SegmentKind V

-- A callback with its gate, which is retired or not.
pub record Progress (x : Engine) : Type 0 where
  pub callback : x.Callback
  pub retired : Bool

pub record SegmentBuilder (x : Engine) : Type 0 where
  pub dataset : x.D
  pub column : String
  pub index_name : Option String
  pub kind : SegmentKind x.arrow.Values
  pub fragment_ids : Option (List ℕ)
  pub index_uuid : Option (List ℕ)
  pub progress : Option (Progress x)
  pub executed : Bool

-- the caller's model arrays, which a call may replace
pub record Slots (x : Engine) : Type 0 where
  pub ivf_centroids : Option x.arrow.Payload
  pub pq_codebook : Option x.arrow.Payload

module _ (x : Engine) where
  abbrev pub Options : Type 0
  Options = Option (BuildOptions x.arrow.Payload)

  unfoldable pub new_scalar_builder :
      Option x.D → CString → CString → ℤ → CString → Options → Result LanceError (SegmentBuilder x)
  new_scalar_builder dataset column index_name index_type params_json options = do
    dataset ← ok_or dataset (invalid "dataset and column must not be NULL")
    guard (not (is_null column)) (invalid "dataset and column must not be NULL")
    column ← required_string column "column must not be NULL or empty"
    index_name ← parse_c_string index_name
    params_json ← parse_c_string params_json
    scalar_type ← scalar_from_c index_type
    parsed ← parse_options (x.fragments dataset) true options
    ok (record {
      dataset = dataset;
      column = column;
      index_name = index_name;
      kind = scalar scalar_type params_json;
      fragment_ids = parsed.fragment_ids;
      index_uuid = parsed.index_uuid;
      progress = none;
      executed = false;
    })

  -- one model with its provenance, out of the caller's slot
  abbrev pub load_borrowed :
      Provenance x.uuids
      → Result LanceError x.arrow.Imported × Option x.arrow.Payload
      → Result LanceError (Option (Given x.arrow.Values x.uuids)) × Option x.arrow.Payload
  load_borrowed provenance (array, slot) = (
    (do array ← array; model ← fixed_size_list_model x.arrow array; ok (some (model, provenance))),
    slot,
  )

  abbrev pub load_with :
      Heap
      → ℕ
      → x.arrow.Payload
      → Result LanceError (Provenance x.uuids)
      → Result LanceError (Option (Given x.arrow.Values x.uuids)) × Option x.arrow.Payload
  load_with heap schema array (err e) = (err e, some array)
  load_with heap schema array (ok provenance) =
      load_borrowed provenance (borrow_model_array x.arrow heap schema (some array))

  abbrev pub schema_provenance : Heap → ℕ → Result LanceError (Provenance x.uuids)
  schema_provenance heap schema = do
    field ← field_of x.arrow heap schema
    model_provenance x.uuids field.metadata

  abbrev pub load_model :
      Heap
      → ℕ
      → Option x.arrow.Payload
      → Result LanceError (Option (Given x.arrow.Values x.uuids)) × Option x.arrow.Payload
  load_model heap schema none = (ok none, none)
  load_model heap schema (some array) = load_with heap schema array (schema_provenance heap schema)

  -- the codebook is read only after the centroids
  abbrev pub then_codebook :
      Heap
      → BuildOptions x.arrow.Payload
      → Result LanceError (Option (Given x.arrow.Values x.uuids)) × Option x.arrow.Payload
      → Result LanceError
          (Option (Given x.arrow.Values x.uuids) × Option (Given x.arrow.Values x.uuids))
        × Slots x
  then_codebook heap o (err e, slot) =
      (err e, record { ivf_centroids = slot; pq_codebook = o.pq_codebook })
  then_codebook heap o (ok centroids, slot) =
      let (r, slot') = load_model heap o.pq_codebook_schema o.pq_codebook in
      (
        (do codebook ← r; ok (centroids, codebook)),
        record { ivf_centroids = slot; pq_codebook = slot' },
      )

  abbrev pub load_models :
      Heap
      → Options
      → Result LanceError
          (Option (Given x.arrow.Values x.uuids) × Option (Given x.arrow.Values x.uuids))
        × Slots x
  load_models heap none = (ok (none, none), record { ivf_centroids = none; pq_codebook = none })
  load_models heap (some o) =
      then_codebook heap o (load_model heap o.ivf_centroids_schema o.ivf_centroids)

  pub record Arguments : Type 0 where
    pub dataset : x.D
    pub column : String
    pub index_name : Option String
    pub params : VectorParams
    pub parsed : ParsedOptions

  unfoldable pub vector_arguments :
      Option x.D → CString → CString → Option RawParams → Options → Result LanceError Arguments
  unfolding parse_params
  vector_arguments dataset column index_name params options = do
    dataset ← ok_or dataset (invalid "dataset, column, and params must not be NULL")
    guard (not (is_null column)) (invalid "dataset, column, and params must not be NULL")
    params ← ok_or params (invalid "dataset, column, and params must not be NULL")
    column ← required_string column "column must not be NULL or empty"
    index_name ← parse_c_string index_name
    params ← parse_params params
    parsed ← parse_options (x.fragments dataset) false options
    ok (record {
      dataset = dataset;
      column = column;
      index_name = index_name;
      params = params;
      parsed = parsed;
    })

  abbrev pub vector_builder :
      Arguments
      → Option (Given x.arrow.Values x.uuids)
      → Option (Given x.arrow.Values x.uuids)
      → Result LanceError (SegmentBuilder x)
  vector_builder a centroids codebook = do
    dim ← x.vector_dim a.dataset a.column
    values ←
        check_models x.defaults a.params dim a.parsed.mode (x.fragments a.dataset)
          a.parsed.fragment_ids centroids codebook
    ok (record {
      dataset = a.dataset;
      column = a.column;
      index_name = a.index_name;
      kind = vector a.params (model_of centroids) values;
      fragment_ids = a.parsed.fragment_ids;
      index_uuid = a.parsed.index_uuid;
      progress = none;
      executed = false;
    })

  abbrev pub slots_of : Options → Slots x
  slots_of none = record { ivf_centroids = none; pq_codebook = none }
  slots_of (some o) = record { ivf_centroids = o.ivf_centroids; pq_codebook = o.pq_codebook }

  abbrev pub with_arguments :
      Heap → Options → Result LanceError Arguments → Result LanceError (SegmentBuilder x) × Slots x
  with_arguments heap options (err e) = (err e, slots_of options)
  with_arguments heap options (ok a) =
      let (r, slots) = load_models heap options in
      ((do models ← r; vector_builder a models.0 models.1), slots)

  unfoldable pub new_vector_builder :
      Heap
      → Option x.D
      → CString
      → CString
      → Option RawParams
      → Options
      → Result LanceError (SegmentBuilder x) × Slots x
  unfolding vector_arguments
  new_vector_builder heap dataset column index_name params options =
      with_arguments heap options (vector_arguments dataset column index_name params options)
