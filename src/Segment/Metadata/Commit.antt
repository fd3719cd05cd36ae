-- ===== src/Segment/Metadata/Commit.antt =====
-- `commit_index_segments_inner`: every segment is decoded before the dataset is touched.
pub mod Asked
pub mod Exact
use lance_c.Prelude.{
  zero, suc, ℕ, ◌-◌, ◌/◌, ◌^◌, String, Option, none, some, not, List, [], ◌∷◌, length, Result, ok,
  err, ◌>>=◌, ◌>>◌, guard, ok_or, ok_of_bind, past_guard, ok_inj, some_of_ok_or, ◌≡◌, refl, subst,
  ◌⊎◌, inl, inr, ltb, ◌==◌, ◌&&◌,
}
use lance_c.Ffi.Outcome.{Act, pure}
use lance_c.Ffi.LastError.{LanceError, LastError}
use lance_c.Scanner.Config.{invalid}
use lance_c.Helpers.{is_null, CString, required_string}
use lance_c.Dataset.{Lock, Mutation, with_mut}
use lance_c.Segment.Metadata.{IndexMetadata, Decoder, max_bytes, decode_segment_metadata}

-- A C array of buffers with their lengths, read in step; NULL is `none`.
abbrev pub Buffers : Type 0
Buffers = List (Option (List ℕ))

-- `isize::MAX as usize / size_of::<*const u8>()`
abbrev pub max_segments : ℕ
max_segments = (2 ^ 63 - 1) / 8

pub record CommitRequest : Type 0 where
  pub index_name : String
  pub column : String
  pub segments : List IndexMetadata

abbrev pub take : {A : Type 0} → ℕ → List A → List A
take zero xs = []
take (suc n) [] = []
take (suc n) (x ∷ xs) = x ∷ take n xs

module _ (x : Decoder) where
  abbrev pub decode_buffer : Option (List ℕ) → Result LanceError IndexMetadata
  decode_buffer none = err (invalid "segment_metadata_bytes must be non-NULL")
  decode_buffer (some bytes) = do
    guard (not (length bytes == 0)) (invalid "segment_metadata_lens must be > 0")
    guard (not (ltb max_bytes (length bytes)))
        (invalid "segment_metadata_lens exceeds the maximum addressable byte slice length")
    decode_segment_metadata x bytes

  abbrev pub decode_all : Buffers → Result LanceError (List IndexMetadata)
  decode_all [] = ok []
  decode_all (b ∷ bs) = do
    metadata ← decode_buffer b
    segments ← decode_all bs
    ok (metadata ∷ segments)

  -- The two arrays, of which the first `segment_count` elements are read; `none` if a pointer is NULL.
  unfoldable pub commit_request :
      CString → CString → ℕ → Option Buffers → Result LanceError CommitRequest
  commit_request index_name column segment_count buffers = do
    guard (not (is_null index_name) && not (is_null column))
        (invalid "dataset, index_name, and column must not be NULL")
    index_name ← required_string index_name "index_name must not be NULL or empty"
    column ← required_string column "column must not be NULL or empty"
    guard (not (segment_count == 0)) (invalid "segment_count must be > 0")
    buffers ←
        ok_or buffers (invalid "segment_metadata_bytes and segment_metadata_lens must not be NULL")
    guard (not (ltb max_segments segment_count))
        (invalid "segment_count exceeds the maximum addressable pointer slice length")
    segments ← decode_all (take segment_count buffers)
    ok (record { index_name = index_name; column = column; segments = segments })

  abbrev pub then_commit :
      {D : Type 0}
      → (CommitRequest → Mutation D (Result LanceError (Unit {0})))
      → Result LanceError CommitRequest
      → Act LastError (Lock D) (Result LanceError (Unit {0}))
  then_commit commit (err e) = pure (err e)
  then_commit commit (ok request) = with_mut (commit request)

  -- `commit` is `commit_existing_index_segments` of Lance, on the working copy.
  unfoldable pub commit_index_segments :
      {D : Type 0}
      → (CommitRequest → Mutation D (Result LanceError (Unit {0})))
      → CString
      → CString
      → ℕ
      → Option Buffers
      → Act LastError (Lock D) (Result LanceError (Unit {0}))
  unfolding commit_request
  commit_index_segments commit index_name column segment_count buffers =
      then_commit commit (commit_request index_name column segment_count buffers)
