-- ===== src/Segment/Examples/Handles.antt =====
-- The theorems on borrowed arrays, builders and metadata at concrete ones.
use lance_c.Prelude.{
  ℕ, suc, pos, text, Option, none, some, true, false, List, [], ◌∷◌, ok, err, ◌≡◌, ◌⊎◌, refl,
}
use lance_c.Ffi.Outcome.{pure, done}
use lance_c.Ffi.LastError.{LanceError}
use lance_c.Scanner.Config.{invalid}
use lance_c.Scanner.Limits.{checked_mul}
use lance_c.Helpers.{utf8}
use lance_c.Dataset.{with_mut}
use lance_c.Index.{btree}
use lance_c.Segment.Schema.{preflight, validate_model_schema, check_node}
use lance_c.Segment.Model.{
  fixed_size_list, ModelArray, check_model, list_size_of, check_parent, check_child,
  validate_common,
}
use lance_c.Segment.Model.Borrow.{Arrow, field_of, checked, import_model_array, borrow_model_array}
use lance_c.Segment.Model.Handover.{Borrowed, borrow_model_array-Borrowed}
use lance_c.Segment.Builder.{Engine, scalar, SegmentBuilder}
use lance_c.Segment.Builder.Calls.{Call, execute, set_progress, requests}
use lance_c.Segment.Builder.Once.{AtMostOnce, last_set, build-AtMostOnce}
use lance_c.Segment.Metadata.{
  IndexMetadata, Compression, Decoder, MetadataHandle, metadata_index_type, metadata_field_count,
  metadata_field_ids, metadata_fragment_count, metadata_fragment_ids,
}
use lance_c.Segment.Metadata.Copy.{Reads, metadata_ids_read}
use lance_c.Segment.Metadata.Kind.{Names, metadata_index_type-Names}
use lance_c.Segment.Metadata.Commit.Asked.{Asked}
use lance_c.Segment.Metadata.Commit.Exact.{commit_index_segments-Asked}
use lance_c.Segment.Metadata.Commit.{CommitRequest, Buffers, commit_index_segments}
use lance_c.Segment.Examples.{heap, lists}

-- an import and an export that pass the array on
abbrev arrow : Arrow
arrow = record {
  Payload = ModelArray;
  Imported = ModelArray;
  Values = ℕ;
  header = λ p. p;
  empty = lists;
  read_field = λ h s. ok (record { data_type = fixed_size_list true (pos 4); metadata = [] });
  import = λ p f. ok p;
  export = λ m. ok m;
  view = λ m. none;
  slice = λ m o l. 0;
  nulls = λ v. 0;
  try_new = λ f w v. err (invalid "");
}

borrow_model_array-Borrowed_example :
    Borrowed arrow heap 1 (some lists) (borrow_model_array arrow heap 1 (some lists))
borrow_model_array-Borrowed_example = borrow_model_array-Borrowed arrow heap 1 (some lists)

-- the array that was exported is in the slot, and the model is what was imported
borrowed : borrow_model_array arrow heap 1 (some lists) ≡ (ok lists, some lists)
unfolding borrow_model_array checked field_of import_model_array validate_model_schema preflight
    check_node check_model list_size_of check_parent check_child validate_common checked_mul
borrowed = refl

abbrev engine : Engine
engine = record {
  arrow = arrow;
  uuids = record { Uuid = ℕ; parse_str = λ s. none; print = λ n. []; same = λ a b. true };
  D = ℕ;
  Callback = ℕ;
  Metadata = ℕ;
  fragments = λ d. [];
  vector_dim = λ d c. ok 8;
  defaults = record {
    ivf_max_iters = 50;
    ivf_sample_rate = 256;
    sq_num_bits = 8;
    sq_sample_rate = 256;
    ef_construction = 150;
  };
  encode = λ m. m ∷ [];
}

abbrev builder : SegmentBuilder engine
builder = record {
  dataset = 1;
  column = "id";
  index_name = none;
  kind = scalar btree none;
  fragment_ids = none;
  index_uuid = none;
  progress = none;
  executed = false;
}

-- two callbacks, an execution, and then a third callback and another execution
abbrev calls : List (Call engine)
calls =
    set_progress (some 7)
    ∷ set_progress (some 8)
    ∷ execute true true (λ r. ok 5)
    ∷ set_progress (some 9)
    ∷ execute true true (λ r. ok 6)
    ∷ []

build-AtMostOnce_example : AtMostOnce builder (last_set calls none) (requests calls (some builder))
build-AtMostOnce_example = build-AtMostOnce calls builder refl

abbrev metadata : IndexMetadata
metadata = record {
  uuid = [];
  name = text "idx";
  fields = pos 3 ∷ pos 4 ∷ [];
  dataset_version = 1;
  index_version = pos 0;
  index_details = some (record { type_url = text "/lance.VectorIndexDetails"; value = [] });
  fragment_bitmap = some (0 ∷ 2 ∷ []);
}

abbrev handle : MetadataHandle
handle = record {
  metadata = metadata;
  name = text "idx";
  index_details_type_url = none;
  fragment_ids = 0 ∷ 2 ∷ [];
}

metadata_ids_read_example :
    (metadata_field_count (some handle) ≡ ok 2)
    × Reads
        (pos 3 ∷ pos 4 ∷ [])
        (λ out capacity. metadata_field_ids (some handle) out capacity true)
    × (metadata_fragment_count (some handle) ≡ ok 2)
    × Reads (0 ∷ 2 ∷ []) (λ out capacity. metadata_fragment_ids (some handle) out capacity true)
metadata_ids_read_example = metadata_ids_read handle

abbrev decoder : Decoder
decoder = record {
  Rest = Unit {0};
  decode = λ bytes. ok (record { created_at = none; index_version = none; fields = []; rest = tt });
  is_timestamp = λ n. true;
  try_from = λ p. ok metadata;
  vector_details = λ bytes. ok (true, some Compression.pq);
}

-- the code is 105, an HNSW graph with product quantization
metadata_index_type-Names_example :
    Names decoder
      (record { type_url = text "/lance.VectorIndexDetails"; value = [] })
      (metadata_index_type decoder (some handle))
metadata_index_type-Names_example =
    metadata_index_type-Names decoder handle
      (record { type_url = text "/lance.VectorIndexDetails"; value = [] }) refl

hnsw_pq_code : metadata_index_type decoder (some handle) ≡ ok 105
unfolding metadata_index_type
hnsw_pq_code = refl

abbrev buffers : Option Buffers
buffers = some (some (1 ∷ []) ∷ some (2 ∷ []) ∷ [])

commit_index_segments-Asked_example :
    ((e : LanceError) × (commit_index_segments decoder
          (λ r d. (done (ok tt), suc d))
          (utf8 "idx")
          (utf8 "id")
          2
          buffers
        ≡ pure (err e))
      × ((request : CommitRequest) → ¬ Asked decoder (utf8 "idx") (utf8 "id") 2 buffers request))
    ⊎ ((request : CommitRequest) × Asked decoder (utf8 "idx") (utf8 "id") 2 buffers request
        × (commit_index_segments decoder
              (λ r d. (done (ok tt), suc d))
              (utf8 "idx")
              (utf8 "id")
              2
              buffers
            ≡ with_mut (λ d. (done (ok tt), suc d))))
commit_index_segments-Asked_example =
    commit_index_segments-Asked decoder (utf8 "idx") (utf8 "id") 2 buffers
      (λ r d. (done (ok tt), suc d))
