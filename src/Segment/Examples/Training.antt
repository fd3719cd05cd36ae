-- ===== src/Segment/Examples/Training.antt =====
-- The theorems on models, builders and metadata at a concrete trainer and engine.
use lance_c.Prelude.{
  ℕ, ◌==◌, eq→==, ◌^◌, sym, ok_inj, ◌*◌, pos, as_i32, Text, Option, none, some, true, [], ◌∷◌,
  Result, ok, ◌≡◌, refl, ap, arith,
}
use lance_c.Ffi.LastError.{LanceError}
use lance_c.Scanner.Setters.{null}
use lance_c.Scanner.Limits.{checked_mul}
use lance_c.Helpers.{utf8, required_string, parse_c_string}
use lance_c.Index.{l2, metric_from_c, ivf_pq}
use lance_c.Index.Params.{VectorParams, Defaults}
use lance_c.Segment.Options.{precomputed, parse_fragments}
use lance_c.Segment.Model.Borrow.{Model}
use lance_c.Segment.Provenance.{Uuids, ivf_metadata, pq_metadata}
use lance_c.Segment.Provenance.RoundTrip.{ivf_provenance, pq_provenance, model_provenance-metadata}
use lance_c.Segment.Models.{check_models}
use lance_c.Segment.Models.Accepted.{CentroidsFit, CodebookFits, check_models-fit}
use lance_c.Segment.Train.{
  Trainer, CommonInput, CommonArgs, parse_common, train_ivf_model, train_pq_model, train_codebook,
}
use lance_c.Segment.Train.Build.{Reliable, trained_models_build}

abbrev first : Text → Option ℕ
first [] = none
first (n ∷ s) = some n

-- a UUID is a number, and its text that number as the one character
abbrev uuids : Uuids
uuids = record { Uuid = ℕ; parse_str = first; print = λ n. n ∷ []; same = λ a b. a == b }

-- vectors of 8 numbers; values are their number of rows
abbrev trainer : Trainer
trainer = record {
  D = Unit {0};
  V = ℕ;
  uuids = uuids;
  fragments = λ d. 0 ∷ 1 ∷ [];
  vector_dim = λ d c. ok 8;
  is_float32 = λ d c. ok true;
  validate_distance = λ m. ok tt;
  build_ivf_model = λ d c dim m n ids.
      ok (some (record { len = n; value_length = as_i32 dim; float32 = true; values = n }));
  build_pq_model = λ d c dim m n bits g ids. ok (n * 2 ^ bits);
  make_lists = λ w v. ok (record { len = v; value_length = w; float32 = true; values = v });
}

model_inj :
    {V : Type 0} {m n : Model V}
    → Path (Result LanceError (Option (Model V))) (ok (some m)) (ok (some n))
    → m ≡ n
model_inj h = cc

reliable : Reliable trainer
reliable = record {
  uuid_text = λ id. refl;
  uuid_same = λ id. eq→== id id refl;
  lists =
      λ w v m h. (ap (λ k. k.value_length) (sym (ok_inj h)), ap (λ k. k.float32) (sym (ok_inj h)));
  centroids = λ c n m h. ap (λ k. k.float32) (sym (model_inj h));
}

abbrev arguments : CommonArgs trainer
arguments = record {
  dataset = some tt;
  column = utf8 "vec";
  metric = pos 0;
  fragment_ids = null 0;
  out_array = some true;
  out_schema = some true;
}

abbrev input : CommonInput trainer
input = record { dataset = tt; column = "vec"; dim = 8; metric = l2; fragments = none }

abbrev centroids : Model ℕ
centroids = record { len = 2; value_length = pos 8; float32 = true; values = 2 }

abbrev codebook : Model ℕ
codebook = record { len = 1024; value_length = pos 2; float32 = true; values = 1024 }

abbrev params : VectorParams
params = record {
  index_type = ivf_pq;
  metric = l2;
  num_partitions = 2;
  num_sub_vectors = 4;
  num_bits = 0;
  max_iterations = 0;
  hnsw_m = 0;
  hnsw_ef_construction = 0;
  sample_rate = 0;
}

abbrev defaults : Defaults
defaults = record {
  ivf_max_iters = 50;
  ivf_sample_rate = 256;
  sq_num_bits = 8;
  sq_sample_rate = 256;
  ef_construction = 150;
}

abbrev id : ℕ
id = 65

ivf_trained :
    train_ivf_model trainer 2 arguments id ≡ ok (input, centroids, ivf_metadata uuids l2 8 id)
unfolding train_ivf_model parse_common metric_from_c required_string parse_c_string parse_fragments
ivf_trained = refl

pq_trained :
    train_pq_model trainer 4 8 arguments (ok (ivf_provenance uuids l2 8 id)) (ok centroids)
    ≡ ok (input, codebook, pq_metadata uuids l2 8 id 4 8)
unfolding train_pq_model parse_common metric_from_c required_string parse_c_string parse_fragments
    train_codebook checked_mul
pq_trained = refl

trained_models_build_example :
    check_models defaults params 8 precomputed
      (0 ∷ 1 ∷ [])
      none
      (some (centroids, ivf_provenance uuids l2 8 id))
      (some (codebook, pq_provenance uuids l2 8 id 4 8))
    ≡ ok (some 1024)
trained_models_build_example =
    trained_models_build trainer reliable defaults params precomputed (0 ∷ 1 ∷ []) arguments
      arguments id input input centroids codebook (ivf_metadata uuids l2 8 id)
      (pq_metadata uuids l2 8 id 4 8) (ivf_provenance uuids l2 8 id)
      (pq_provenance uuids l2 8 id 4 8) (omega arith, omega arith, omega arith)
      (record { product = refl; metric = refl; graph = λ h. cc }) refl ivf_trained
      (model_provenance-metadata uuids l2 8 id 4 8 (omega arith) (omega arith) (omega arith) refl).0
      pq_trained
      (model_provenance-metadata uuids l2 8 id 4 8 (omega arith) (omega arith) (omega arith) refl).1

check_models-fit_example :
    CentroidsFit params 8 (centroids, ivf_provenance uuids l2 8 id)
    × CodebookFits params 8
        (some (centroids, ivf_provenance uuids l2 8 id))
        (codebook, pq_provenance uuids l2 8 id 4 8)
check_models-fit_example =
    check_models-fit defaults params 8 precomputed (0 ∷ 1 ∷ []) none
      (some (centroids, ivf_provenance uuids l2 8 id))
      (some (codebook, pq_provenance uuids l2 8 id 4 8)) trained_models_build_example
