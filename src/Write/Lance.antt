-- ===== src/Write/Lance.antt =====
-- Lance and Arrow, as far as the calls that write use them.
use lance_c.Prelude.{ℕ, String, Option, Bool, List, Result}
use lance_c.Ffi.Outcome.{Caught}
use lance_c.Ffi.LastError.{LanceError}
use lance_c.Helpers.{CString}
use lance_c.Dataset.{Mutation}
use lance_c.Merge.{ResolvedParams}
use lance_c.Write.Params.{WriteParams, CompactionOptions}

-- `NewColumnTransform`; the reader of a stream is known by its schema
pub data NewColumnTransform (Schema : Type 0) : Type 0 where
  sql_expressions : List (String × String) → NewColumnTransform Schema
  all_nulls : Schema → NewColumnTransform Schema
  reader : Schema → NewColumnTransform Schema

-- `ColumnAlteration`
pub record ColumnAlteration (DataType : Type 0) : Type 0 where
  pub path : String
  pub rename : Option String
  pub nullable : Option Bool
  pub data_type : Option DataType

-- `CompactionMetrics` and `MergeStats`
pub record CompactionMetrics : Type 0 where
  pub fragments_removed : ℕ
  pub fragments_added : ℕ
  pub files_removed : ℕ
  pub files_added : ℕ

pub record MergeStats : Type 0 where
  pub num_inserted_rows : ℕ
  pub num_updated_rows : ℕ
  pub num_deleted_rows : ℕ

-- An `FFI_ArrowSchema`: whether its `release` is there, its `format`, and what arrow-rs makes of it.
pub record CSchema (A : Type 0) : Type 0 where
  pub release : Bool
  pub format : CString
  pub conversion : Caught (Option A)

-- `update` and `merge_insert` are the builders with the job: they give the new dataset.
pub record Lance : Type 1 where
  pub Dataset : Type 0
  pub Schema : Type 0
  pub DataType : Type 0
  pub Version : Type 0
  pub same_fields : Schema → Schema → Bool
  pub version_from_str : String → Option Version
  pub default_write_params : WriteParams Version
  pub default_compaction : CompactionOptions
  pub write : Schema → String → WriteParams Version → Caught (Result LanceError Dataset)
  pub write_uncommitted :
      Schema → String → WriteParams Version → Caught (Result LanceError (Unit {0}))
  pub add_columns :
      NewColumnTransform Schema → Option ℕ → Mutation Dataset (Result LanceError (Unit {0}))
  pub drop_columns : List String → Mutation Dataset (Result LanceError (Unit {0}))
  pub alter_columns :
      List (ColumnAlteration DataType) → Mutation Dataset (Result LanceError (Unit {0}))
  pub delete : String → Mutation Dataset (Result LanceError ℕ)
  pub update :
      Option String → List (String × String) → Dataset → Caught (Result LanceError (Dataset × ℕ))
  pub merge_insert :
      List String
      → ResolvedParams
      → Schema
      → Dataset
      → Caught (Result LanceError (Dataset × MergeStats))
  pub compact_files : CompactionOptions → Mutation Dataset (Result LanceError CompactionMetrics)
  pub checkout_and_restore : ℕ → Dataset → Caught (Result LanceError Dataset)
