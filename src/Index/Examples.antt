-- ===== src/Index/Examples.antt =====
-- The theorems on index types and parameters at concrete values.
use lance_c.Prelude.{
  pos, ok, some, none, true, ◌≡◌, ℕ, refl, ◌≤◌, ◌<◌, false, List, [], ◌∷◌, All, length, replicate,
  err, ok_inj, subst, Result,
}
use lance_c.Ffi.LastError.{LanceError}
use lance_c.Scanner.Config.{invalid}
use lance_c.Helpers.{utf8, parse_c_string}
use lance_c.Index.Lifecycle.{IndexEntry, index_segment_count, list_segments}
use lance_c.Index.Lifecycle.Segments.{HasUuid, list_segments_lem}
use lance_c.Index.{ivf_pq, cosine}
use lance_c.Index.Params.{VectorParams, Lance, build_vector_params}
use lance_c.Index.Accepted.{is_ok, accepts, build_vector_params_lem}

-- centroids are their number
abbrev lance : Lance
lance = record {
  Centroids = ℕ;
  Codebook = ℕ;
  length_of = λ n. n;
  defaults = record {
    ivf_max_iters = 50;
    ivf_sample_rate = 256;
    sq_num_bits = 8;
    sq_sample_rate = 256;
    ef_construction = 150;
  };
}

abbrev params : VectorParams
params = record {
  index_type = ivf_pq;
  metric = cosine;
  num_partitions = 16;
  num_sub_vectors = 8;
  num_bits = 0;
  max_iterations = 0;
  hnsw_m = 0;
  hnsw_ef_construction = 0;
  sample_rate = 0;
}

build_vector_params_lem_example :
    is_ok (build_vector_params lance params (some 16) none) ≡ accepts lance params (some 16)
build_vector_params_lem_example = build_vector_params_lem lance params (some 16) none

abbrev uuid : List ℕ
uuid = replicate 16 7

abbrev entries : List IndexEntry
entries =
    record { name = "vec_idx"; uuid = uuid; fields = pos 1 ∷ []; system = false }
    ∷ record { name = "__frag_reuse"; uuid = uuid; fields = []; system = true }
    ∷ record { name = "vec_idx"; uuid = uuid; fields = pos 1 ∷ []; system = false }
    ∷ []

two_segments : index_segment_count (ok entries) (utf8 "vec_idx") ≡ ok 2
unfolding index_segment_count parse_c_string
two_segments = refl

sixteen_bytes :
    (is : List IndexEntry)
    → Path (Result LanceError (List IndexEntry)) (ok entries) (ok is)
    → All HasUuid is
sixteen_bytes is h = subst (All HasUuid) (ok_inj h) (refl, (refl, (refl, tt)))

list_segments_lem_example :
    ((2 ≤ 4)
      → (bytes : List ℕ) × (list_segments (ok entries) (utf8 "vec_idx") true 4 ≡ ok (bytes, 2))
        × (length bytes ≡ 32))
    × ((4 < 2)
        → list_segments (ok entries) (utf8 "vec_idx") true 4
          ≡ err (invalid "out_uuids capacity too small for segments"))
list_segments_lem_example =
    list_segments_lem (ok entries) (utf8 "vec_idx") 2 4 two_segments sixteen_bytes
