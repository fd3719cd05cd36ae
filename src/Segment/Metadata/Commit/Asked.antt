-- ===== src/Segment/Metadata/Commit/Asked.antt =====
-- What a commit asks for, and that it is made just then.
use lance_c.Prelude.{
  ℕ, suc, ◌≤◌, ◌<◌, ◌^◌, ℤ, pos, String, Option, none, some, Bool, true, false, List, [], ◌∷◌,
  length, ok, ◌≡◌,
}
use text.Mathlib.Text.{◌==◌ as str_eq}
use lance_c.Helpers.{CString, utf8}
use lance_c.Segment.Metadata.{Proto, IndexMetadata, Decoder}
use lance_c.Segment.Metadata.Commit.{Buffers, max_segments, CommitRequest}

-- a string that was given and is not empty
abbrev pub Given : CString → String → Type 0
Given c s = (c ≡ utf8 s) × (str_eq s "" ≡ false)

-- a creation time that chrono can hold, in milliseconds of 64 bits with a sign, or none
abbrev pub IsTime : (ℕ → Bool) → Option ℕ → Type 0
IsTime is_timestamp none = Unit
IsTime is_timestamp (some created_at) = (created_at < 2 ^ 63) × (is_timestamp created_at ≡ true)

abbrev pub IsNatural : ℤ → Type 0
IsNatural z = (n : ℕ) × (z ≡ pos n)

abbrev pub IsVersion : Option ℤ → Type 0
IsVersion none = Unit
IsVersion (some version) = IsNatural version

abbrev pub AllNatural : List ℤ → Type 0
AllNatural [] = Unit
AllNatural (z ∷ zs) = IsNatural z × AllNatural zs

module _ (x : Decoder) where
  -- a buffer that holds the metadata of a segment: a protobuf message in range, which Lance converts
  pub record Segment (b : Option (List ℕ)) (m : IndexMetadata) : Type 0 where
    pub buffer : List ℕ
    pub there : b ≡ some buffer
    pub filled : 0 < length buffer
    pub addressable : length buffer < 2 ^ 63
    pub proto : Proto x.Rest
    pub decoded : x.decode buffer ≡ ok proto
    pub time : IsTime x.is_timestamp proto.created_at
    pub version : IsVersion proto.index_version
    pub fields : AllNatural proto.fields
    pub converted : x.try_from proto ≡ ok m

  -- the first so many buffers, in their order; the caller sees to it that the array does not end before
  pub data Segments : ℕ → Buffers → List IndexMetadata → Type 0 where
    done : (bs : Buffers) → Segments 0 bs []
    short : (n : ℕ) → Segments (suc n) [] []
    next :
        (n : ℕ) (b : Option (List ℕ)) (bs : Buffers) (m : IndexMetadata) (ms : List IndexMetadata)
        → Segment b m
        → Segments n bs ms
        → Segments (suc n) (b ∷ bs) (m ∷ ms)

  -- The request that the arguments of a commit ask for.
  pub record Asked (index_name column : CString) (segment_count : ℕ) (buffers : Option Buffers)
      (request : CommitRequest) : Type 0 where
    pub name : Given index_name request.index_name
    pub on : Given column request.column
    pub some_segments : 0 < segment_count
    pub count_fits : segment_count ≤ max_segments
    pub arrays : Buffers
    pub arrays_given : buffers ≡ some arrays
    pub segments : Segments segment_count arrays request.segments
