-- ===== src/Segment/Metadata/Kind.antt =====
-- The code of a segment's index type, which `metadata_index_type` reads off its index details.
use lance_c.Prelude.{
  ℕ, ◌>>=◌, subst, Text, text, Option, none, some, Bool, true, false, Result, ok, err, ok_or, ◌≡◌,
  ◌⊎◌, inl, inr, refl, sym, if◌then◌else◌,
}
use lance_c.Ffi.LastError.{LanceError}
use lance_c.Scanner.Config.{invalid}
use lance_c.Index.{
  ScalarType, btree, bitmap, label_list, inverted, VectorType, ivf_flat, ivf_sq, ivf_pq,
  ivf_hnsw_sq, ivf_hnsw_pq, ivf_hnsw_flat, scalar_code, vector_code,
}
use lance_c.Segment.Metadata.{
  Compression, flat, sq, pq, rq, Decoder, Details, details_code, ends_with, MetadataHandle,
  details_type_code, metadata_index_type,
}

-- the message in which Lance keeps the details of a scalar index, by the end of its type URL
abbrev pub details_name : ScalarType → Text
details_name btree = text "BTreeIndexDetails"
details_name bitmap = text "BitmapIndexDetails"
details_name label_list = text "LabelListIndexDetails"
details_name inverted = text "InvertedIndexDetails"

-- how the details of a vector index of some type read: with an HNSW graph or not, and compressed how
abbrev pub reads_as : VectorType → Bool × Compression
reads_as ivf_flat = (false, flat)
reads_as ivf_sq = (false, sq)
reads_as ivf_pq = (false, pq)
reads_as ivf_hnsw_flat = (true, flat)
reads_as ivf_hnsw_sq = (true, sq)
reads_as ivf_hnsw_pq = (true, pq)

-- vectors whose compression is left out are not compressed
abbrev pub compression : Option Compression → Compression
compression none = flat
compression (some c) = c

module _ (x : Decoder) where
  -- the details of a scalar index, or those of a vector index that read as its type
  abbrev pub OfScalar : Details → ScalarType → Type 0
  OfScalar d t = ends_with d.type_url (details_name t) ≡ true

  abbrev pub OfVector : Details → VectorType → Type 0
  OfVector d t =
      (ends_with d.type_url (text "VectorIndexDetails") ≡ true)
      × (c : Option Compression) × (x.vector_details d.value ≡ ok ((reads_as t).0, c))
      × (compression c ≡ (reads_as t).1)

  -- details of neither kind, or of a vector index that cannot be read or has no code
  abbrev pub Unnamed : Details → LanceError → Type 0
  Unnamed d e =
      ((t : ScalarType) → ends_with d.type_url (details_name t) ≡ false)
      × ((ends_with d.type_url (text "VectorIndexDetails") ≡ false)
          ⊎ (x.vector_details d.value ≡ err e)
          ⊎ ((hnsw : Bool) × (x.vector_details d.value ≡ ok (hnsw, some rq))))

  abbrev pub Names : Details → Result LanceError ℕ → Type 0
  Names d (ok z) =
      ((t : ScalarType) × OfScalar d t × (scalar_code t ≡ z))
      ⊎ ((t : VectorType) × OfVector d t × (vector_code t ≡ z))
  Names d (err e) = Unnamed d e

  abbrev NoScalar : Details → Type 0
  NoScalar d = (t : ScalarType) → ends_with d.type_url (details_name t) ≡ false

  -- what the details of a vector index are read as
  vector-Names :
      (d : Details) (r : Result LanceError (Bool × Option Compression))
      → NoScalar d
      → ends_with d.type_url (text "VectorIndexDetails") ≡ true
      → x.vector_details d.value ≡ r
      → Names d (r >>= λ k. details_type_code k.0 k.1)
  vector-Names d (err e) n v h = (n, inr (inl h))
  vector-Names d (ok (false, none)) n v h = inr (ivf_flat, (v, none, h, refl), refl)
  vector-Names d (ok (false, some flat)) n v h = inr (ivf_flat, (v, some flat, h, refl), refl)
  vector-Names d (ok (false, some sq)) n v h = inr (ivf_sq, (v, some sq, h, refl), refl)
  vector-Names d (ok (false, some pq)) n v h = inr (ivf_pq, (v, some pq, h, refl), refl)
  vector-Names d (ok (true, some sq)) n v h = inr (ivf_hnsw_sq, (v, some sq, h, refl), refl)
  vector-Names d (ok (true, some pq)) n v h = inr (ivf_hnsw_pq, (v, some pq, h, refl), refl)
  vector-Names d (ok (true, none)) n v h = inr (ivf_hnsw_flat, (v, none, h, refl), refl)
  vector-Names d (ok (true, some flat)) n v h = inr (ivf_hnsw_flat, (v, some flat, h, refl), refl)
  vector-Names d (ok (false, some rq)) n v h = (n, inr (inr (false, h)))
  vector-Names d (ok (true, some rq)) n v h = (n, inr (inr (true, h)))

  -- either side of a test
  either :
      (d : Details) (b : Bool) (r s : Result LanceError ℕ)
      → (b ≡ true → Names d r)
      → (b ≡ false → Names d s)
      → Names d (if b then r else s)
  either d true r s f g = f refl
  either d false r s f g = g refl

  none_of :
      (d : Details)
      → ends_with d.type_url (details_name btree) ≡ false
      → ends_with d.type_url (details_name bitmap) ≡ false
      → ends_with d.type_url (details_name label_list) ≡ false
      → ends_with d.type_url (details_name inverted) ≡ false
      → NoScalar d
  none_of d a b c e btree = a
  none_of d a b c e bitmap = b
  none_of d a b c e label_list = c
  none_of d a b c e inverted = e

  details_code-Names : (d : Details) → Names d (details_code x d)
  details_code-Names d =
      either d (ends_with d.type_url (details_name btree)) _ _ (λ e. inl (btree, e, refl))
        λ a.
          either d (ends_with d.type_url (details_name bitmap)) _ _ (λ e. inl (bitmap, e, refl))
            λ b.
              either d (ends_with d.type_url (details_name label_list)) _ _
                (λ e. inl (label_list, e, refl))
                λ c.
                  either d (ends_with d.type_url (details_name inverted)) _ _
                    (λ e. inl (inverted, e, refl))
                    λ k.
                      either d (ends_with d.type_url (text "VectorIndexDetails")) _ _
                        (λ e. vector-Names d (x.vector_details d.value) (none_of d a b c k) e refl)
                        (λ e. (none_of d a b c k, inl e))

  -- The index type of a segment that has details is a code of the C enums: the code of the scalar
  -- type whose details they are, by the end of their type URL, or of the vector type that they read
  -- as, where vectors whose compression is left out are flat. It is an error only if the details are
  -- of neither kind, or are those of a vector index that cannot be read or is RQ-compressed.
  pub metadata_index_type-Names :
      (m : MetadataHandle) (d : Details)
      → m.metadata.index_details ≡ some d
      → Names d (metadata_index_type x (some m))
  unfolding metadata_index_type
  metadata_index_type-Names m d h =
      subst
        (λ o.
          Names d
            (ok_or o (invalid "index metadata does not contain index_details") >>= details_code x))
        (sym h) (details_code-Names d)
