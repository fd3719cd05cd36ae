-- ===== src/Segment/Options.antt =====
-- The options of a segment builder (`parse_options`), and the fragments of a trainer
-- (index_model.rs: `parse_fragments`), which are read in one loop instead of two.
pub mod Fragments
use lance_c.Prelude.{
  ℕ, zero, suc, ◌-◌, ◌/◌, ◌^◌, ℤ, pos, negsuc, Option, none, some, Bool, true, false, not, List, [],
  ◌∷◌, any, length, Result, ok, err, ◌>>=◌, ◌>>◌, guard, ◌==◌, ltb, ◌&&◌, ◌||◌, if◌then◌else◌,
  is_some,
}
use lance_c.Ffi.LastError.{LanceError}
use lance_c.Scanner.Config.{invalid}
use lance_c.Scanner.Setters.{Slice, null, buffer}

pub data BuildMode : Type 0 where
  auto : BuildMode
  local_train : BuildMode
  precomputed : BuildMode

abbrev pub is_precomputed : BuildMode → Bool
is_precomputed precomputed = true
is_precomputed _ = false

unfoldable pub mode_from_c : ℤ → Result LanceError BuildMode
mode_from_c (pos zero) = ok auto
mode_from_c (pos (suc zero)) = ok local_train
mode_from_c (pos (suc (suc zero))) = ok precomputed
mode_from_c _ = err (invalid "mode must be 0 (AUTO), 1 (LOCAL_TRAIN), or 2 (PRECOMPUTED)")

-- `A` stands for the Arrow arrays of C; a schema is an address, 0 if NULL.
pub record BuildOptions (A : Type 0) : Type 0 where
  pub fragment_ids : Slice
  pub index_uuid : Option (List ℕ)
  pub ivf_centroids : Option A
  pub ivf_centroids_schema : ℕ
  pub pq_codebook : Option A
  pub pq_codebook_schema : ℕ
  pub mode : ℤ

pub record ParsedOptions : Type 0 where
  pub fragment_ids : Option (List ℕ)
  pub index_uuid : Option (List ℕ)
  pub mode : BuildMode

-- `isize::MAX as usize / size_of::<u32>()`
abbrev pub max_fragments : ℕ
max_fragments = (2 ^ 63 - 1) / 4

abbrev pub mem : ℕ → List ℕ → Bool
mem a xs = any (λ b. a == b) xs

-- the fragment ids that fit in 32 bits
abbrev pub existing : List ℕ → List ℕ
existing [] = []
existing (f ∷ fs) = let rest = existing fs in if ltb f (2 ^ 32) then f ∷ rest else rest

-- the loop that fills the set `unique`
abbrev pub check_unique : List ℕ → List ℕ → Result LanceError (Unit {0})
check_unique unique [] = ok tt
check_unique unique (id ∷ ids) = do
  guard (not (mem id unique)) (invalid "is duplicate fragment id")
  check_unique (id ∷ unique) ids

abbrev pub check_existing : List ℕ → List ℕ → Result LanceError (Unit {0})
check_existing fragments [] = ok tt
check_existing fragments (id ∷ ids) = do
  guard (mem id (existing fragments)) (invalid "does not exist in dataset version")
  check_existing fragments ids

abbrev pub check_count : List ℕ → Result LanceError (Unit {0})
check_count ids =
    guard (not (ltb max_fragments (length ids)))
      (invalid "fragment_count exceeds the maximum addressable u32 slice length")

unfoldable pub parse_fragment_ids : List ℕ → Slice → Result LanceError (Option (List ℕ))
parse_fragment_ids fragments (null zero) = ok none
parse_fragment_ids fragments (null (suc n)) =
    err (invalid "fragment_ids is NULL but fragment_count is not 0")
parse_fragment_ids fragments (buffer []) =
    err (invalid "fragment_ids is non-NULL but fragment_count is 0")
parse_fragment_ids fragments (buffer (id ∷ ids)) = do
  check_count (id ∷ ids)
  check_unique [] (id ∷ ids)
  check_existing fragments (id ∷ ids)
  ok (some (id ∷ ids))

-- the one loop of `parse_fragments`
abbrev pub check_each : List ℕ → List ℕ → List ℕ → Result LanceError (Unit {0})
check_each fragments unique [] = ok tt
check_each fragments unique (id ∷ ids) = do
  guard (not (mem id unique)) (invalid "is duplicate fragment id")
  guard (mem id (existing fragments)) (invalid "does not exist in dataset version")
  check_each fragments (id ∷ unique) ids

unfoldable pub parse_fragments : List ℕ → Slice → Result LanceError (Option (List ℕ))
parse_fragments fragments (null zero) = ok none
parse_fragments fragments (null (suc n)) =
    err (invalid "fragment_ids is NULL but fragment_count is not 0")
parse_fragments fragments (buffer []) =
    err (invalid "fragment_ids is non-NULL but fragment_count is 0")
parse_fragments fragments (buffer (id ∷ ids)) = do
  check_count (id ∷ ids)
  check_each fragments [] (id ∷ ids)
  ok (some (id ∷ ids))

abbrev pub is_pair : {A : Type 0} → Option A → ℕ → Bool
is_pair none schema = schema == 0
is_pair (some a) schema = not (schema == 0)

-- The options of a builder over a dataset with these fragments; NULL options take the defaults.
unfoldable pub parse_options :
    {A : Type 0} → List ℕ → Bool → Option (BuildOptions A) → Result LanceError ParsedOptions
unfolding parse_fragment_ids mode_from_c
parse_options fragments scalar none =
    ok (record { fragment_ids = none; index_uuid = none; mode = auto })
parse_options fragments scalar (some o) = do
  fragment_ids ← parse_fragment_ids fragments o.fragment_ids
  guard (is_pair o.ivf_centroids o.ivf_centroids_schema)
      (invalid "ivf_centroids and ivf_centroids_schema must both be NULL or both be non-NULL")
  guard (is_pair o.pq_codebook o.pq_codebook_schema)
      (invalid "pq_codebook and pq_codebook_schema must both be NULL or both be non-NULL")
  guard (not (scalar && (is_some o.ivf_centroids || is_some o.pq_codebook)))
      (invalid "ivf_centroids and pq_codebook are not valid for a scalar index segment")
  mode ← mode_from_c o.mode
  guard (not (scalar && is_precomputed mode))
      (invalid "mode PRECOMPUTED is not valid for a scalar index segment")
  ok (record { fragment_ids = fragment_ids; index_uuid = o.index_uuid; mode = mode })
