-- ===== src/Segment/Provenance.antt =====
-- Where a model comes from, as the metadata of its schema says: `model_provenance`, and the metadata
-- that the trainers of index_model.rs write.
pub mod RoundTrip
use lance_c.Prelude.{
  ℕ, ◌^◌, ℤ, Text, text, String, to_string, parse_unsigned, parse_i32, Option, none, some, Bool,
  List, [], Result, ok, err, ◌>>=◌, ok_or,
}
use lance_c.Ffi.LastError.{LanceError}
use lance_c.Scanner.Config.{invalid}
use lance_c.Helpers.{Map, insert, lookup}
use lance_c.Index.{Metric, metric_code}

-- the `uuid` crate
pub record Uuids : Type 1 where
  pub Uuid : Type 0
  pub parse_str : Text → Option Uuid
  pub print : Uuid → Text
  pub same : Uuid → Uuid → Bool

abbrev pub model_kind_key : String
model_kind_key = "lance:index_model:kind"

abbrev pub model_metric_key : String
model_metric_key = "lance:index_model:metric"

abbrev pub model_dimension_key : String
model_dimension_key = "lance:index_model:dimension"

abbrev pub ivf_model_id_key : String
ivf_model_id_key = "lance:index_model:ivf_id"

abbrev pub pq_sub_vectors_key : String
pq_sub_vectors_key = "lance:index_model:num_sub_vectors"

abbrev pub pq_bits_key : String
pq_bits_key = "lance:index_model:num_bits"

pub record Provenance (u : Uuids) : Type 0 where
  pub kind : Text
  pub metric : ℤ
  pub dimension : ℕ
  pub ivf_id : u.Uuid
  pub num_sub_vectors : Option ℕ
  pub num_bits : Option ℕ

abbrev pub required : Map Text → String → Result LanceError Text
required metadata key = ok_or (lookup key metadata) (invalid "metadata is missing required key")

abbrev pub parsed_u32 : Option Text → Result LanceError (Option ℕ)
parsed_u32 none = ok none
parsed_u32 (some value) = do
  n ← ok_or (parse_unsigned (2 ^ 32) value) (invalid "metadata value is invalid")
  ok (some n)

unfoldable pub model_provenance : (u : Uuids) → Map Text → Result LanceError (Provenance u)
model_provenance u metadata = do
  metric_text ← required metadata model_metric_key
  metric ← ok_or (parse_i32 metric_text) (invalid "metadata metric is invalid")
  dimension_text ← required metadata model_dimension_key
  dimension ←
      ok_or (parse_unsigned (2 ^ 64) dimension_text) (invalid "metadata dimension is invalid")
  id_text ← required metadata ivf_model_id_key
  ivf_id ← ok_or (u.parse_str id_text) (invalid "metadata ivf_id is invalid")
  kind ← required metadata model_kind_key
  num_sub_vectors ← parsed_u32 (lookup pq_sub_vectors_key metadata)
  num_bits ← parsed_u32 (lookup pq_bits_key metadata)
  ok (record {
    kind = kind;
    metric = metric;
    dimension = dimension;
    ivf_id = ivf_id;
    num_sub_vectors = num_sub_vectors;
    num_bits = num_bits;
  })

-- what `train_ivf_model_inner` writes, `id` being the new UUID
unfoldable pub ivf_metadata : (u : Uuids) → Metric → ℕ → u.Uuid → Map Text
ivf_metadata u metric dim id = insert ivf_model_id_key (u.print id) (
    insert model_dimension_key (to_string dim) (
      insert model_metric_key (to_string (metric_code metric))
        (insert model_kind_key (text "ivf") [])))

-- what `train_pq_model_inner` writes, `id` being that of the centroids
unfoldable pub pq_metadata : (u : Uuids) → Metric → ℕ → u.Uuid → ℕ → ℕ → Map Text
pq_metadata u metric dim id num_sub_vectors num_bits = insert pq_bits_key (to_string num_bits) (
    insert pq_sub_vectors_key (to_string num_sub_vectors) (
      insert ivf_model_id_key (u.print id) (
        insert model_dimension_key (to_string dim) (
          insert model_metric_key (to_string (metric_code metric))
            (insert model_kind_key (text "pq") [])))))
