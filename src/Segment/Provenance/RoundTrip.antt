-- ===== src/Segment/Provenance/RoundTrip.antt =====
-- The provenance that a trainer writes is read back.
use lance_c.Prelude.{
  ℕ, ◌<◌, ◌^◌, pos, text, some, none, ok, ◌≡◌, refl, parse_unsigned-to_string, parse_i32-to_string,
  arith,
}
use lance_c.Index.{Metric, l2, cosine, dot, hamming, metric_code}
use lance_c.Segment.Provenance.{Uuids, Provenance, model_provenance, ivf_metadata, pq_metadata}

metric_small : (m : Metric) → metric_code m < 2 ^ 31
metric_small l2 = omega arith
metric_small cosine = omega arith
metric_small dot = omega arith
metric_small hamming = omega arith

module _ (u : Uuids) (metric : Metric) (dim : ℕ) (id : u.Uuid) where
  abbrev pub ivf_provenance : Provenance u
  ivf_provenance = record {
    kind = text "ivf";
    metric = pos (metric_code metric);
    dimension = dim;
    ivf_id = id;
    num_sub_vectors = none;
    num_bits = none;
  }

  abbrev pub pq_provenance : ℕ → ℕ → Provenance u
  pq_provenance num_sub_vectors num_bits = record {
    kind = text "pq";
    metric = pos (metric_code metric);
    dimension = dim;
    ivf_id = id;
    num_sub_vectors = some num_sub_vectors;
    num_bits = some num_bits;
  }

  -- The metadata that the trainers write is read back as what they wrote, if the text of a UUID is
  -- read back as that UUID.
  pub model_provenance-metadata :
      (num_sub_vectors num_bits : ℕ)
      → dim < 2 ^ 64
      → num_sub_vectors < 2 ^ 32
      → num_bits < 2 ^ 32
      → u.parse_str (u.print id) ≡ some id
      → (model_provenance u (ivf_metadata u metric dim id) ≡ ok ivf_provenance)
        × (model_provenance u (pq_metadata u metric dim id num_sub_vectors num_bits)
            ≡ ok (pq_provenance num_sub_vectors num_bits))
  unfolding model_provenance ivf_metadata pq_metadata
  model_provenance-metadata num_sub_vectors num_bits d n b r =
      rw
        (
          parse_i32-to_string (metric_code metric) (metric_small metric),
          parse_unsigned-to_string (2 ^ 64) dim (omega arith) d,
          r,
          parse_unsigned-to_string (2 ^ 32) num_sub_vectors (omega arith) n,
          parse_unsigned-to_string (2 ^ 32) num_bits (omega arith) b,
        )
        (refl, refl)
