-- ===== src/Write/Params.antt =====
-- The tunable parameters: `apply_write_params` of src/writer.rs, `resolve_options` of src/compact.rs,
-- and `resolve_batch_size` of src/add_columns.rs. The defaults are Lance's.
use lance_c.Prelude.{
  ℕ, ◌^◌, ℤ, pos, negsuc, String, Option, none, some, Bool, Result, ok, err, ◌>>=◌, ◌==◌, ltb,
  if◌then◌else◌,
}
use lance_c.Ffi.LastError.{LanceError}
use lance_c.Helpers.{CString, null, required_string, Map}
use lance_c.Scanner.Config.{invalid}

pub data WriteMode : Type 0 where
  create append overwrite : WriteMode

-- `LanceWriteMode::from_raw`
unfoldable pub write_mode_from_raw : ℤ → Result LanceError WriteMode
write_mode_from_raw (negsuc n) = err (invalid "invalid write mode")
write_mode_from_raw (pos n) =
    if n == 0
    then ok create
    else if n == 1
    then ok append
    else if n == 2
    then ok overwrite
    else err (invalid "invalid write mode")

-- `usize::try_from`
unfoldable pub u64_to_usize : ℕ → Result LanceError ℕ
u64_to_usize v = if ltb v (2 ^ 64) then ok v else err (invalid "exceeds usize::MAX on this target")

-- `LanceWriteParams`, as C sets it
pub record CWriteParams : Type 0 where
  pub max_rows_per_file : ℕ
  pub max_rows_per_group : ℕ
  pub max_bytes_per_file : ℕ
  pub data_storage_version : CString
  pub enable_stable_row_ids : Bool

-- What the source sets of Lance's `WriteParams`; `auto_cleanup` is an interval and a number of days.
pub record WriteParams (Version : Type 0) : Type 0 where
  pub mode : WriteMode
  pub storage_options : Option (Map String)
  pub auto_cleanup : Option (ℕ × ℕ)
  pub max_rows_per_file : ℕ
  pub max_rows_per_group : ℕ
  pub max_bytes_per_file : ℕ
  pub data_storage_version : Option Version
  pub enable_stable_row_ids : Bool

-- a field that is left as it is at zero
unfoldable pub unless_zero : ℕ → ℕ → Result LanceError ℕ
unfolding u64_to_usize
unless_zero v before = if ltb 0 v then u64_to_usize v else ok before

module _ {Version : Type 0} (from_str : String → Option Version) where
  abbrev pub known_version : Option Version → Result LanceError Version
  known_version none = err (invalid "invalid data_storage_version")
  known_version (some version) = ok version

  unfoldable pub storage_version : CString → Option Version → Result LanceError (Option Version)
  unfolding required_string
  storage_version null before = ok before
  storage_version given before = do
    s ← required_string given "data_storage_version must not be an empty string"
    version ← known_version (from_str s)
    ok (some version)

  unfoldable pub apply_write_params :
      WriteParams Version → CWriteParams → Result LanceError (WriteParams Version)
  unfolding unless_zero storage_version
  apply_write_params target params = do
    rows ← unless_zero params.max_rows_per_file target.max_rows_per_file
    group ← unless_zero params.max_rows_per_group target.max_rows_per_group
    size ← unless_zero params.max_bytes_per_file target.max_bytes_per_file
    version ← storage_version params.data_storage_version target.data_storage_version
    ok (record target {
      max_rows_per_file = rows;
      max_rows_per_group = group;
      max_bytes_per_file = size;
      data_storage_version = version;
      enable_stable_row_ids = params.enable_stable_row_ids;
    })

pub record CompactionOptions : Type 0 where
  pub target_rows_per_fragment : ℕ
  pub max_rows_per_group : ℕ
  pub max_bytes_per_file : Option ℕ
  pub num_threads : Option ℕ
  pub batch_size : Option ℕ

-- `LanceCompactionOptions`
pub record CCompactionOptions : Type 0 where
  pub target_rows_per_fragment : ℕ
  pub max_rows_per_group : ℕ
  pub max_bytes_per_file : ℕ
  pub num_threads : ℕ
  pub batch_size : ℕ

abbrev pub unless_none : ℕ → Option ℕ → Result LanceError (Option ℕ)
unless_none v before = if ltb 0 v then (do n ← u64_to_usize v; ok (some n)) else ok before

unfoldable pub resolve_options :
    CompactionOptions → Option CCompactionOptions → Result LanceError CompactionOptions
unfolding unless_zero u64_to_usize
resolve_options defaults none = ok defaults
resolve_options defaults (some opts) = do
  target ← unless_zero opts.target_rows_per_fragment defaults.target_rows_per_fragment
  group ← unless_zero opts.max_rows_per_group defaults.max_rows_per_group
  size ← unless_none opts.max_bytes_per_file defaults.max_bytes_per_file
  threads ← unless_none opts.num_threads defaults.num_threads
  batch ← unless_none opts.batch_size defaults.batch_size
  ok (record {
    target_rows_per_fragment = target;
    max_rows_per_group = group;
    max_bytes_per_file = size;
    num_threads = threads;
    batch_size = batch;
  })

unfoldable pub resolve_batch_size : ℕ → Result LanceError (Option ℕ)
resolve_batch_size n =
    if n == 0
    then ok none
    else if ltb n (2 ^ 32)
    then ok (some n)
    else err (invalid "batch_size exceeds u32::MAX")
