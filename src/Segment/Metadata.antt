-- ===== src/Segment/Metadata.antt =====
-- Segment metadata: decoding with its range checks, the handle and its accessors.
pub mod Copy
pub mod Kind
pub mod Commit
use lance_c.Prelude.{
  ℕ, zero, suc, ◌-◌, ◌^◌, ℤ, pos, negsuc, Text, text, text_eq, has_nul, Option, none, some, Bool,
  true, false, not, List, [], ◌∷◌, ◌++◌, all, length, Result, ok, err, ◌>>=◌, ◌>>◌, guard, ok_or,
  ◌==◌, ltb, ◌&&◌, ◌||◌, if◌then◌else◌, is_some, natural,
}
use lance_c.Ffi.Outcome.{done}
use lance_c.Ffi.LastError.{LanceError, ErrorKind, c_string}
use lance_c.Scanner.Config.{invalid}

-- `pb::IndexMetadata`, as far as it is checked here; `R` is the rest of the message.
pub record Proto (R : Type 0) : Type 0 where
  pub created_at : Option ℕ
  pub index_version : Option ℤ
  pub fields : List ℤ
  pub rest : R

pub record Details : Type 0 where
  pub type_url : Text
  pub value : List ℕ

-- `IndexMetadata` of Lance
pub record IndexMetadata : Type 0 where
  pub uuid : List ℕ
  pub name : Text
  pub fields : List ℤ
  pub dataset_version : ℕ
  pub index_version : ℤ
  pub index_details : Option Details
  pub fragment_bitmap : Option (List ℕ)

pub data Compression : Type 0 where
  flat : Compression
  sq : Compression
  pq : Compression
  rq : Compression

-- The protobuf decoders, chrono's range of timestamps, and Lance's conversion.
pub record Decoder : Type 1 where
  pub Rest : Type 0
  pub decode : List ℕ → Result LanceError (Proto Rest)
  pub is_timestamp : ℕ → Bool
  pub try_from : Proto Rest → Result LanceError IndexMetadata
  pub vector_details : List ℕ → Result LanceError (Bool × Option Compression)

abbrev pub is_negative : ℤ → Bool
is_negative (pos n) = false
is_negative (negsuc n) = true

abbrev pub in_range : (ℕ → Bool) → Option ℕ → Bool
in_range is_timestamp none = true
in_range is_timestamp (some created_at) = ltb created_at (2 ^ 63) && is_timestamp created_at

abbrev pub has_version : Option ℤ → Bool
has_version none = true
has_version (some version) = not (is_negative version)

-- `isize::MAX`
abbrev pub max_bytes : ℕ
max_bytes = 2 ^ 63 - 1

abbrev pub unsupported : LanceError
unsupported = record {
  kind = ErrorKind.not_supported;
  display = done (text "unsupported index_details type_url");
}

-- `str::ends_with`
abbrev pub ends_with : Text → Text → Bool
ends_with [] suffix = text_eq [] suffix
ends_with (c ∷ s) suffix = text_eq (c ∷ s) suffix || ends_with s suffix

-- `LanceIndexSegmentMetadata`
pub record MetadataHandle : Type 0 where
  pub metadata : IndexMetadata
  pub name : Text
  pub index_details_type_url : Option Text
  pub fragment_ids : List ℕ

abbrev pub c_string_of : Option Details → Result LanceError (Option Text)
c_string_of none = ok none
c_string_of (some details) = do
  url ←
      ok_or (c_string details.type_url) (invalid "index details type_url contains an embedded NUL")
  ok (some url)

abbrev pub or_empty : Option (List ℕ) → List ℕ
or_empty none = []
or_empty (some ids) = ids

abbrev pub details_type_code : Bool → Option Compression → Result LanceError ℕ
details_type_code false none = ok 101
details_type_code false (some flat) = ok 101
details_type_code false (some sq) = ok 102
details_type_code false (some pq) = ok 103
details_type_code true (some sq) = ok 104
details_type_code true (some pq) = ok 105
details_type_code true none = ok 106
details_type_code true (some flat) = ok 106
details_type_code hnsw (some rq) = err unsupported

module _ (x : Decoder) where
  unfoldable pub decode_segment_metadata : List ℕ → Result LanceError IndexMetadata
  decode_segment_metadata bytes = do
    proto ← x.decode bytes
    guard (in_range x.is_timestamp proto.created_at)
        (invalid "IndexMetadata created_at exceeds i64::MAX milliseconds or chrono's range")
    guard (has_version proto.index_version) (invalid "IndexMetadata index_version must be >= 0")
    guard (all (λ field. not (is_negative field)) proto.fields)
        (invalid "IndexMetadata fields must be >= 0")
    x.try_from proto

  -- bytes behind a pointer that may be NULL
  unfoldable pub parse_metadata : Option (List ℕ) → Bool → Result LanceError MetadataHandle
  unfolding decode_segment_metadata
  parse_metadata bytes out_metadata = do
    bytes ← ok_or bytes (invalid "bytes must be non-NULL")
    guard (not (length bytes == 0) && out_metadata)
        (invalid "len must be > 0, and out_metadata must be non-NULL")
    guard (not (ltb max_bytes (length bytes)))
        (invalid "len exceeds the maximum addressable byte slice length")
    metadata ← decode_segment_metadata bytes
    name ←
        ok_or (c_string metadata.name) (invalid "index metadata name contains an embedded NUL byte")
    url ← c_string_of metadata.index_details
    ok (record {
      metadata = metadata;
      name = name;
      index_details_type_url = url;
      fragment_ids = or_empty metadata.fragment_bitmap;
    })

  abbrev pub details_code : Details → Result LanceError ℕ
  details_code details =
      if ends_with details.type_url (text "BTreeIndexDetails")
      then ok 1
      else if ends_with details.type_url (text "BitmapIndexDetails")
      then ok 2
      else if ends_with details.type_url (text "LabelListIndexDetails")
      then ok 3
      else if ends_with details.type_url (text "InvertedIndexDetails")
      then ok 4
      else if ends_with details.type_url (text "VectorIndexDetails")
      then (do d ← x.vector_details details.value; details_type_code d.0 d.1)
      else err unsupported

  unfoldable pub metadata_index_type : Option MetadataHandle → Result LanceError ℕ
  metadata_index_type handle = do
    handle ← ok_or handle (invalid "metadata must not be NULL")
    details ←
        ok_or handle.metadata.index_details
          (invalid "index metadata does not contain index_details")
    details_code details

module _ {A : Type 0} where
  -- `copy_nonoverlapping` onto the first places of a buffer
  abbrev pub overwrite : List A → List A → List A
  overwrite [] buffer = buffer
  overwrite (i ∷ ids) [] = []
  overwrite (i ∷ ids) (b ∷ buffer) = i ∷ overwrite ids buffer

  abbrev pub written : List A → Option (List A) → Option (List A)
  written ids none = none
  written ids (some buffer) = some (overwrite ids buffer)

-- A copy of ids into the caller's buffer of some capacity (NULL is `none`), and the count written to
-- `out_count`, which may be NULL.
unfoldable pub copy_ids :
    {A : Type 0} → List A → Option (List A) → ℕ → Bool → Result LanceError (Option (List A) × ℕ)
copy_ids ids out capacity out_count = do
  guard out_count (invalid "metadata and out_count must not be NULL")
  guard (not (ltb capacity (length ids))) (invalid "capacity is smaller than the count")
  guard ((length ids == 0) || is_some out) (invalid "out pointer is NULL but the count is not 0")
  ok (written ids out, length ids)

unfoldable pub metadata_field_count : Option MetadataHandle → Result LanceError ℕ
metadata_field_count handle = do
  handle ← ok_or handle (invalid "metadata is NULL")
  ok (length handle.metadata.fields)

unfoldable pub metadata_field_ids :
    Option MetadataHandle → Option (List ℤ) → ℕ → Bool → Result LanceError (Option (List ℤ) × ℕ)
unfolding copy_ids
metadata_field_ids handle out capacity out_count = do
  handle ← ok_or handle (invalid "metadata and out_count must not be NULL")
  copy_ids handle.metadata.fields out capacity out_count

unfoldable pub metadata_fragment_count : Option MetadataHandle → Result LanceError ℕ
metadata_fragment_count handle = do
  handle ← ok_or handle (invalid "metadata is NULL")
  ok (length handle.fragment_ids)

unfoldable pub metadata_fragment_ids :
    Option MetadataHandle → Option (List ℕ) → ℕ → Bool → Result LanceError (Option (List ℕ) × ℕ)
unfolding copy_ids
metadata_fragment_ids handle out capacity out_count = do
  handle ← ok_or handle (invalid "metadata and out_count must not be NULL")
  copy_ids handle.fragment_ids out capacity out_count
