-- ===== src/Write/Columns.antt =====
-- Columns: src/add_columns.rs, src/drop_columns.rs and src/alter_columns.rs.
use lance_c.Prelude.{
  ℕ, ℤ, pos, Option, none, some, Bool, true, false, not, ◌||◌, List, length, ok, err, ◌==◌,
  if◌then◌else◌,
}
use lance_c.Ffi.Outcome.{Caught, done, panicked}
use lance_c.Helpers.{CString, bytes, is_null}
use lance_c.Scanner.Config.{invalid}
use lance_c.Dataset.{Lock}
use lance_c.Write.{
  Source, Call, given, attempt, ◌>>=◌, ◌>>◌, refuse_if, require, dataset_pointer, stream_pointer,
  drop_reader, take_source, with_reader, mutated,
}
use lance_c.Write.Params.{resolve_batch_size}
use lance_c.Write.Lance.{NewColumnTransform, sql_expressions, all_nulls, reader, CSchema, Lance}
use lance_c.Write.Parse.{
  parse_each, parse_sql_column, parse_name, CAlteration, parse_alteration, parse_alterations,
}

-- whether a pointer is NULL
abbrev pub is_missing : {A : Type 0} → Option A → Bool
is_missing none = true
is_missing (some a) = false

-- `to_str` on a C string that is not NULL
abbrev pub is_utf8 : CString → Bool
is_utf8 bytes = false
is_utf8 _ = true

module _ (l : Lance) {O : Type 0} where
  -- the last lines of each call: `ds.with_mut(…)?; Ok(0)`
  abbrev pub add_to : Lock l.Dataset → NewColumnTransform l.Schema → Option ℕ → Call l.Dataset O ℤ
  add_to lock transform batch_size = do
    mutated lock (l.add_columns transform batch_size)
    given (ok (pos 0))

  -- An array pointer with its length is the list of its entries.
  unfoldable pub add_columns_sql : Option (List (CString × CString)) → ℕ → Call l.Dataset O ℤ
  unfolding resolve_batch_size parse_sql_column mutated
  add_columns_sql columns batch_size = do
    dataset ← dataset_pointer
    lock ← require dataset "dataset must not be NULL"
    entries ← require columns "columns must not be NULL"
    refuse_if (length entries == 0) "num_columns must be > 0"
    batch ← given (resolve_batch_size batch_size)
    pairs ← given (parse_each parse_sql_column entries)
    add_to lock (sql_expressions pairs) batch

  abbrev pub schema_of : Caught (Option l.Schema) → Call l.Dataset O l.Schema
  schema_of (done none) = given (err (invalid "schema is not a valid Arrow schema"))
  schema_of (done (some schema)) = given (ok schema)
  schema_of (panicked p) = attempt (panicked p)

  unfoldable pub add_columns_nulls : Option (CSchema l.Schema) → Call l.Dataset O ℤ
  unfolding mutated
  add_columns_nulls pointer = do
    dataset ← dataset_pointer
    lock ← require dataset "dataset must not be NULL"
    schema ← require pointer "schema must not be NULL"
    refuse_if (not schema.release || is_null schema.format)
        "schema is uninitialised or already released"
    refuse_if (not (is_utf8 schema.format)) "schema format string is not valid UTF-8"
    arrow_schema ← schema_of schema.conversion
    add_to lock (all_nulls arrow_schema) none

  -- the release of a stream that lacks a callback: the caller's field is cleared before the call
  abbrev pub release_broken : Source → Call l.Dataset O ℤ
  release_broken src s =
      if src.release
      then (
        done (err (invalid "stream is uninitialised, released, or lacks a callback")),
        record s { world = drop_reader (take_source src s.world) },
      )
      else (done (err (invalid "stream is uninitialised, released, or lacks a callback")), s)

  unfoldable pub add_reader : ℕ → l.Schema → Call l.Dataset O ℤ
  unfolding resolve_batch_size mutated
  add_reader batch_size schema = do
    dataset ← dataset_pointer
    lock ← require dataset "dataset must not be NULL"
    batch ← given (resolve_batch_size batch_size)
    add_to lock (reader schema) batch

  abbrev pub add_source : Caught (Option l.Schema) → ℕ → Source → Call l.Dataset O ℤ
  add_source import batch_size src =
      if not src.release || not src.get_schema || not src.get_next
      then release_broken src
      else with_reader src import (add_reader batch_size)

  -- `import` is the schema that the producer gives, converted
  unfoldable pub add_columns_stream : Caught (Option l.Schema) → ℕ → Call l.Dataset O ℤ
  unfolding with_reader add_reader
  add_columns_stream import batch_size = do
    stream ← stream_pointer
    src ← require stream "stream must not be NULL"
    add_source import batch_size src

  unfoldable pub drop_columns : Option (List CString) → Call l.Dataset O ℤ
  unfolding parse_name mutated
  drop_columns columns = do
    dataset ← dataset_pointer
    lock ← require dataset "dataset must not be NULL"
    entries ← require columns "columns must not be NULL"
    refuse_if (length entries == 0) "num_columns must be > 0"
    names ← given (parse_each parse_name entries)
    mutated lock (l.drop_columns names)
    given (ok (pos 0))

  unfoldable pub alter_columns : Option (List (CAlteration l.DataType)) → Call l.Dataset O ℤ
  unfolding parse_alteration mutated
  alter_columns alterations = do
    dataset ← dataset_pointer
    lock ← require dataset "dataset must not be NULL"
    entries ← require alterations "alterations must not be NULL"
    refuse_if (length entries == 0) "num_alterations must be > 0"
    owned ← attempt (parse_alterations entries)
    mutated lock (l.alter_columns owned)
    given (ok (pos 0))
