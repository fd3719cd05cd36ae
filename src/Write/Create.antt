-- ===== src/Write/Create.antt =====
-- New datasets and fragments: src/writer.rs and src/fragment_writer.rs.
use lance_c.Prelude.{
  ℤ, pos, String, Option, none, some, false, not, ◌||◌, List, [], Result, ok, err,
}
use lance_c.Ffi.Outcome.{Caught, done, panicked}
use lance_c.Ffi.LastError.{LanceError}
use lance_c.Helpers.{CString, is_null, parse_c_string, required_string, Map, parse_storage_options}
use lance_c.Scanner.Config.{invalid}
use lance_c.Dataset.{Lock}
use lance_c.Write.{
  Call, given, attempt, ◌>>=◌, ◌>>◌, refuse_if, require, stream_pointer, with_reader, write_out,
}
use lance_c.Write.Params.{
  WriteMode, WriteParams, CWriteParams, write_mode_from_raw, apply_write_params,
}
use lance_c.Write.Lance.{CSchema, Lance}
use lance_c.Write.Columns.{is_missing}

-- `(!opts.is_empty()).then(…)`
abbrev pub store_options : Map String → Option (Map String)
store_options [] = none
store_options options = some options

module _ (l : Lance) where
  abbrev pub expected_schema : {O : Type 0} → Caught (Option l.Schema) → Call l.Dataset O l.Schema
  expected_schema (done none) = given (err (invalid "invalid schema"))
  expected_schema (done (some schema)) = given (ok schema)
  expected_schema (panicked p) = attempt (panicked p)

  -- every 20 versions, those that are older than 14 days
  abbrev pub write_params : WriteMode → Map String → WriteParams l.Version
  write_params mode options = record (l.default_write_params) {
    mode = mode;
    storage_options = store_options options;
    auto_cleanup = some (20, 14);
  }

  abbrev pub with_params :
      WriteParams l.Version → Option CWriteParams → Result LanceError (WriteParams l.Version)
  with_params target none = ok target
  with_params target (some params) = apply_write_params l.version_from_str target params

  -- the new handle, for `out_dataset`
  abbrev pub new_handle : l.Dataset → Lock l.Dataset
  new_handle dataset = record { inner = dataset; lock_poisoned = false }

  unfoldable pub write_reader :
      CString
      → Option (CSchema l.Schema)
      → ℤ
      → Option CWriteParams
      → Option (List CString)
      → l.Schema
      → Call l.Dataset (Lock l.Dataset) ℤ
  unfolding write_mode_from_raw required_string parse_storage_options apply_write_params
  write_reader uri pointer mode params storage stream_schema = do
    refuse_if (is_null uri) "uri must not be NULL"
    schema ← require pointer "schema must not be NULL"
    m ← given (write_mode_from_raw mode)
    u ← given (required_string uri "uri must not be empty")
    expected ← expected_schema schema.conversion
    options ← given (parse_storage_options storage)
    refuse_if (not (l.same_fields stream_schema expected))
        "stream schema does not match the provided schema"
    target ← given (with_params (write_params m options) params)
    dataset ← attempt (l.write stream_schema u target)
    write_out (new_handle dataset)
    given (ok (pos 0))

  -- `write_dataset_inner`; the two entry points differ in `params`, which one leaves NULL
  unfoldable pub write_dataset :
      CString
      → Option (CSchema l.Schema)
      → ℤ
      → Option CWriteParams
      → Option (List CString)
      → Caught (Option l.Schema)
      → Call l.Dataset (Lock l.Dataset) ℤ
  unfolding with_reader write_reader
  write_dataset uri pointer mode params storage import = do
    stream ← stream_pointer
    src ← require stream "stream must not be NULL"
    with_reader src import (write_reader uri pointer mode params storage)

  unfoldable pub fragments_reader :
      {O : Type 0} → String → l.Schema → Map String → l.Schema → Call l.Dataset O ℤ
  fragments_reader uri expected options stream_schema = do
    refuse_if (not (l.same_fields stream_schema expected))
        "stream schema does not match the provided schema"
    attempt (
        l.write_uncommitted stream_schema uri
          (record (l.default_write_params) { storage_options = store_options options }))
    given (ok (pos 0))

  -- `write_fragments_inner`, where the stream is imported after the other arguments are read
  unfoldable pub write_fragments :
      {O : Type 0}
      → CString
      → Option (CSchema l.Schema)
      → Option (List CString)
      → Caught (Option l.Schema)
      → Call l.Dataset O ℤ
  unfolding with_reader parse_c_string parse_storage_options fragments_reader
  write_fragments uri pointer storage import = do
    stream ← stream_pointer
    refuse_if (is_null uri || is_missing pointer || is_missing stream)
        "uri, schema, and stream must not be NULL"
    schema ← require pointer "uri, schema, and stream must not be NULL"
    src ← require stream "uri, schema, and stream must not be NULL"
    parsed ← given (parse_c_string uri)
    u ← require parsed "uri must not be empty"
    expected ← expected_schema schema.conversion
    options ← given (parse_storage_options storage)
    with_reader src import (fragments_reader u expected options)
