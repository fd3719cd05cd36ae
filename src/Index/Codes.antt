-- ===== src/Index/Codes.antt =====
-- The codes of the C enums name the Rust variants, and nothing else.
use lance_c.Prelude.{ℤ, pos, negsuc, ok, ◌≡◌, ◌↔◌, refl, ap, ◌∙◌, arith}
use lance_c.Index.{
  ScalarType, btree, bitmap, label_list, inverted, VectorType, ivf_flat, ivf_sq, ivf_pq,
  ivf_hnsw_sq, ivf_hnsw_pq, ivf_hnsw_flat, Metric, l2, cosine, dot, hamming, scalar_code,
  vector_code, metric_code, scalar_from_c, vector_from_c, metric_from_c,
}

scalar_of_code : (t : ScalarType) → scalar_from_c (pos (scalar_code t)) ≡ ok t
unfolding scalar_from_c
scalar_of_code btree = refl
scalar_of_code bitmap = refl
scalar_of_code label_list = refl
scalar_of_code inverted = refl

code_of_scalar : (z : ℤ) (t : ScalarType) → scalar_from_c z ≡ ok t → z ≡ pos (scalar_code t)
unfolding scalar_from_c
code_of_scalar (negsuc n) t h = cc
code_of_scalar (pos n) t h = ground (arith, h)

vector_of_code : (t : VectorType) → vector_from_c (pos (vector_code t)) ≡ ok t
unfolding vector_from_c
vector_of_code ivf_flat = refl
vector_of_code ivf_sq = refl
vector_of_code ivf_pq = refl
vector_of_code ivf_hnsw_sq = refl
vector_of_code ivf_hnsw_pq = refl
vector_of_code ivf_hnsw_flat = refl

code_of_vector : (z : ℤ) (t : VectorType) → vector_from_c z ≡ ok t → z ≡ pos (vector_code t)
unfolding vector_from_c
code_of_vector (negsuc n) t h = cc
code_of_vector (pos n) t h = ground (arith, h)

metric_of_code : (t : Metric) → metric_from_c (pos (metric_code t)) ≡ ok t
unfolding metric_from_c
metric_of_code l2 = refl
metric_of_code cosine = refl
metric_of_code dot = refl
metric_of_code hamming = refl

code_of_metric : (z : ℤ) (t : Metric) → metric_from_c z ≡ ok t → z ≡ pos (metric_code t)
unfolding metric_from_c
code_of_metric (negsuc n) t h = cc
code_of_metric (pos n) t h = ground (arith, h)

-- An integer from C is read as a variant of an enum exactly when it is the code of that variant,
-- for scalar index types, for vector index types, and for metrics.
from_c-code :
    (z : ℤ) (s : ScalarType) (v : VectorType) (m : Metric)
    → ((scalar_from_c z ≡ ok s) ↔ (z ≡ pos (scalar_code s)))
      × ((vector_from_c z ≡ ok v) ↔ (z ≡ pos (vector_code v)))
      × ((metric_from_c z ≡ ok m) ↔ (z ≡ pos (metric_code m)))
from_c-code z s v m = (
  (code_of_scalar z s, λ e. ap scalar_from_c e ∙ scalar_of_code s),
  (code_of_vector z v, λ e. ap vector_from_c e ∙ vector_of_code v),
  (code_of_metric z m, λ e. ap metric_from_c e ∙ metric_of_code m),
)
