-- ===== src/Write/Rows.antt =====
-- Rows: src/delete.rs, src/update.rs, src/merge_insert.rs, src/compact.rs and src/restore.rs.
use lance_c.Prelude.{ℕ, ℤ, pos, String, Option, false, err, ◌||◌, List, Result, ok, ◌==◌}
use lance_c.Ffi.Outcome.{Caught, done, panicked}
use lance_c.Ffi.LastError.{LanceError}
use lance_c.Helpers.{CString, is_null, required_string}
use lance_c.Dataset.{Lock, Mutation}
use lance_c.Merge.{MergeInsertParams, ResolvedParams, resolve_params}
use lance_c.Write.{
  Call, given, attempt, ◌>>=◌, ◌>>◌, refuse_if, require, dataset_pointer, stream_pointer,
  with_reader, mutated, write_out,
}
use lance_c.Write.Columns.{is_missing}
use lance_c.Write.Params.{CCompactionOptions, resolve_options}
use lance_c.Write.Lance.{CompactionMetrics, MergeStats, Lance}
use lance_c.Write.Parse.{parse_each, parse_key, parse_update, parse_predicate}

module _ (l : Lance) where
  unfoldable pub delete : CString → Call l.Dataset ℕ ℤ
  unfolding required_string mutated
  delete predicate = do
    dataset ← dataset_pointer
    refuse_if (is_missing dataset || is_null predicate) "dataset and predicate must not be NULL"
    lock ← require dataset "dataset and predicate must not be NULL"
    p ← given (required_string predicate "predicate must not be empty")
    num_deleted ← mutated lock (l.delete p)
    write_out num_deleted
    given (ok (pos 0))

  -- what is published back into `*d`, if the job succeeds
  abbrev pub published :
      {A : Type 0}
      → Caught (Result LanceError (l.Dataset × A))
      → l.Dataset
      → Caught (Result LanceError A) × l.Dataset
  published (done (ok (new, a))) d = (done (ok a), new)
  published (done (err e)) d = (done (err e), d)
  published (panicked p) d = (panicked p, d)

  abbrev pub run_update :
      Option String → List (String × String) → Mutation l.Dataset (Result LanceError ℕ)
  run_update p pairs d = published (l.update p pairs d) d

  abbrev pub run_merge :
      List String → ResolvedParams → l.Schema → Mutation l.Dataset (Result LanceError MergeStats)
  run_merge keys resolved schema d = published (l.merge_insert keys resolved schema d) d

  -- `columns` and `values` have `num_updates` entries each: a list of pairs, unless one is NULL
  unfoldable pub update : CString → Option (List (CString × CString)) → ℕ → Call l.Dataset ℕ ℤ
  unfolding parse_update parse_predicate mutated
  update predicate updates num_updates = do
    dataset ← dataset_pointer
    lock ← require dataset "dataset must not be NULL"
    refuse_if (num_updates == 0) "num_updates must be >= 1"
    entries ← require updates "columns and values must not be NULL when num_updates > 0"
    p ← given (parse_predicate predicate)
    pairs ← given (parse_each parse_update entries)
    num_updated ← mutated lock (run_update p pairs)
    write_out num_updated
    given (ok (pos 0))

  -- `on_columns` has `num_on_columns` entries, unless it is NULL
  unfoldable pub merge_reader :
      Option (List CString) → ℕ → Option MergeInsertParams → l.Schema → Call l.Dataset MergeStats ℤ
  unfolding parse_key resolve_params mutated
  merge_reader on_columns num_on_columns params schema = do
    dataset ← dataset_pointer
    lock ← require dataset "dataset must not be NULL"
    refuse_if (num_on_columns == 0) "num_on_columns must be >= 1"
    entries ← require on_columns "on_columns must not be NULL when num_on_columns > 0"
    keys ← given (parse_each parse_key entries)
    resolved ← given (resolve_params params)
    stats ← mutated lock (run_merge keys resolved schema)
    write_out stats
    given (ok (pos 0))

  unfoldable pub merge_insert :
      Option (List CString)
      → ℕ
      → Option MergeInsertParams
      → Caught (Option l.Schema)
      → Call l.Dataset MergeStats ℤ
  unfolding with_reader merge_reader
  merge_insert on_columns num_on_columns params import = do
    stream ← stream_pointer
    src ← require stream "source stream must not be NULL"
    with_reader src import (merge_reader on_columns num_on_columns params)

  unfoldable pub compact : Option CCompactionOptions → Call l.Dataset CompactionMetrics ℤ
  unfolding resolve_options mutated
  compact options = do
    dataset ← dataset_pointer
    lock ← require dataset "dataset must not be NULL"
    resolved ← given (resolve_options l.default_compaction options)
    metrics ← mutated lock (l.compact_files resolved)
    write_out metrics
    given (ok (pos 0))

  -- a new handle on the restored version; the old one keeps its snapshot
  unfoldable pub restore : {O : Type 0} → ℕ → Call l.Dataset O (Lock l.Dataset)
  restore version = do
    dataset ← dataset_pointer
    lock ← require dataset "dataset must not be NULL"
    refuse_if (version == 0) "version must be >= 1; 0 is reserved as the latest sentinel"
    restored ← attempt (l.checkout_and_restore version lock.inner)
    given (ok (record { inner = restored; lock_poisoned = false }))
