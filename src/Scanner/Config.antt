-- ===== src/Scanner/Config.antt =====
-- `LanceScanner`, its fields and its initial state. What other libraries own is in `External`.
use lance_c.Prelude.{ℕ, ℤ, String, text, Option, none, Bool, false, List, [], Result}
use lance_c.Ffi.Outcome.{done}
use lance_c.Ffi.LastError.{ErrorKind, LanceError}

-- `Error::invalid_input`. Of a formatted message only the fixed words are kept.
unfoldable pub invalid : String → LanceError
invalid message = record { kind = ErrorKind.invalid_input; display = done (text message) }

-- `LanceDataType`
pub data DataType : Type 0 where
  float32 float16 float64 uint8 int8 : DataType

-- A column's Arrow type, as far as the nearest queries tell it apart. The element of a list may be
-- of a type that no query has.
pub data FieldType : Type 0 where
  fixed_size_list : Option DataType → ℕ → FieldType
  list_of_fixed : Bool → Option DataType → ℕ → FieldType
  other_type : FieldType

-- What the scanner takes from Arrow, Lance and the standard library's floats. `copy` copies
-- elements of a type out of the caller's buffer, which is at `address`, and `matrix` is a
-- `FixedSizeListArray` of the copy; `same_snapshot` is `Arc::ptr_eq`.
pub record External : Type 1 where
  pub Dataset : Type 0
  pub Buffer : Type 0
  pub Array : Type 0
  pub Float : Type 0
  pub FtsQuery : Type 0
  pub FtsContext : Type 0
  pub Callback : Type 0
  pub field : Dataset → String → Option FieldType
  pub address : Buffer → ℕ
  pub copy : DataType → Buffer → ℕ → Array
  pub all_finite : Array → Bool
  pub matrix : DataType → ℕ → Array → Result LanceError Array
  pub datafusion_error : String → LanceError
  pub is_finite : Float → Bool
  pub float_ge : Float → Float → Bool
  pub same_snapshot : FtsContext → Dataset → Bool
  pub fts_new : String → FtsQuery
  pub fts_fuzzy : String → ℕ → FtsQuery
  pub fts_with_columns : FtsQuery → List String → Result LanceError FtsQuery

pub data NearestMode : Type 0 where
  single : NearestMode
  multi_vector : NearestMode
  batch : ℕ → NearestMode

pub data ApproxMode : Type 0 where
  fast normal accurate : ApproxMode

pub data BlobHandling : Type 0 where
  blobs_descriptions all_binary all_descriptions : BlobHandling

pub data MetricType : Type 0 where
  l2 cosine dot hamming : MetricType

pub record NprobesRange : Type 0 where
  pub minimum : Option ℕ
  pub maximum : Option ℕ

pub record NearestQuery (x : External) : Type 0 where
  pub mode : NearestMode
  pub column : String
  pub query : x.Array
  pub k : ℕ
  pub lower_bound : Option x.Float
  pub upper_bound : Option x.Float

-- The handle. `poll_wakers` and the stream are modelled with the calls that use them.
pub record Scanner (x : External) : Type 0 where
  pub dataset : x.Dataset
  pub columns : Option (List String)
  pub filter : Option String
  pub substrait_filter : Option (List ℕ)
  pub additional_sql_filters : List String
  pub blob_handling : Option BlobHandling
  pub limit : Option ℤ
  pub offset : Option ℤ
  pub batch_size : Option ℕ
  pub batch_size_bytes : Option ℕ
  pub strict_batch_size : Option Bool
  pub io_buffer_size : Option ℕ
  pub batch_readahead : Option ℕ
  pub fragment_readahead : Option ℕ
  pub target_parallelism : Option ℕ
  pub scan_in_order : Option Bool
  pub use_scalar_index : Option Bool
  pub use_stats : Option Bool
  pub with_row_id : Bool
  pub with_row_address : Bool
  pub include_deleted_rows : Bool
  pub fragment_ids : Option (List ℕ)
  pub row_addr_allowlist : Option (List ℕ)
  pub row_addr_blocklist : Option (List ℕ)
  pub index_segments : Option (List ℕ)
  pub scalar_index_segment : Option ℕ
  pub scalar_index_auto_selection : Bool
  pub nearest : Option (NearestQuery x)
  pub nprobes : NprobesRange
  pub approx_mode : Option ApproxMode
  pub query_parallelism : Option ℤ
  pub refine_factor : Option ℕ
  pub ef : Option ℕ
  pub metric_override : Option MetricType
  pub use_index : Option Bool
  pub prefilter : Bool
  pub fts_query : Option x.FtsQuery
  pub fts_context : Option x.FtsContext
  pub fts_index_segments : Option (List ℕ)
  pub poisoned : Bool
  pub scan_statistics_callback : Option x.Callback
  pub scan_started : Bool

module _ {x : External} where
  unfoldable pub new : x.Dataset → Scanner x
  new dataset = record {
    dataset = dataset;
    columns = none;
    filter = none;
    substrait_filter = none;
    additional_sql_filters = [];
    blob_handling = none;
    limit = none;
    offset = none;
    batch_size = none;
    batch_size_bytes = none;
    strict_batch_size = none;
    io_buffer_size = none;
    batch_readahead = none;
    fragment_readahead = none;
    target_parallelism = none;
    scan_in_order = none;
    use_scalar_index = none;
    use_stats = none;
    with_row_id = false;
    with_row_address = false;
    include_deleted_rows = false;
    fragment_ids = none;
    row_addr_allowlist = none;
    row_addr_blocklist = none;
    index_segments = none;
    scalar_index_segment = none;
    scalar_index_auto_selection = false;
    nearest = none;
    nprobes = record { minimum = none; maximum = none };
    approx_mode = none;
    query_parallelism = none;
    refine_factor = none;
    ef = none;
    metric_override = none;
    use_index = none;
    prefilter = false;
    fts_query = none;
    fts_context = none;
    fts_index_segments = none;
    poisoned = false;
    scan_statistics_callback = none;
    scan_started = false;
  }
