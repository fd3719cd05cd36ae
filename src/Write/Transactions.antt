-- ===== src/Write/Transactions.antt =====
-- Every call that changes a dataset is refused, or makes the one change that it asks for (src/delete.rs,
-- update.rs, merge_insert.rs, compact.rs, add_columns.rs, drop_columns.rs and alter_columns.rs).
mod Rows
mod Columns
use lance_c.Prelude.{
  ℕ, ℤ, pos, String, Option, none, some, Bool, true, false, not, ◌||◌, List, [], ◌∷◌, length,
  Result, ok, err, ok_inj, ◌==◌, ◌≡◌, refl, sym, ap, ◌∙◌, if◌then◌else◌,
}
use lance_c.Ffi.Outcome.{Caught, done, panicked, Payload, State}
use lance_c.Ffi.LastError.{LanceError, LastError}
use lance_c.Helpers.{CString, is_null, required_string}
use lance_c.Dataset.{Lock, Mutation}
use lance_c.Merge.{MergeInsertParams, resolve_params}
use lance_c.Write.{
  Source, Caller, Call, given, attempt, ◌>>=◌, ◌>>◌, refuse_if, require, dataset_pointer,
  stream_pointer, with_reader, mutated, write_out, written,
}
use lance_c.Write.Transacts.{
  Change, Transacts, refused, Same, Reports, silent-Reports, written-Reports, after_given,
  after_attempt, after_require, after_refuse_if, after_pointer, after_stream, after_change,
  after_reader,
}
use lance_c.Write.Params.{CCompactionOptions, resolve_options, resolve_batch_size}
use lance_c.Write.Lance.{
  Lance, CSchema, CompactionMetrics, MergeStats, NewColumnTransform, sql_expressions, all_nulls,
  reader, ColumnAlteration,
}
use lance_c.Write.Parse.{
  parse_each, parse_sql_column, parse_name, parse_key, parse_update, parse_predicate, CAlteration,
  parse_alterations,
}
use lance_c.Write.Columns.{
  is_missing, is_utf8, add_columns_sql, add_to, schema_of, add_columns_nulls, add_reader,
  add_source, add_columns_stream, drop_columns, alter_columns, release_broken,
}
use lance_c.Write.Rows.{delete, update, merge_reader, merge_insert, compact}
use lance_c.Write.Changes.{
  reporting, silent, ChangeCall, deletes, updates, merges, compacts, adds_sql, adds_nulls,
  adds_stream, drops, alters, change_body, Made, Asked, asked_delete, asked_update, asked_merge,
  asked_compact, asked_sql, asked_nulls, asked_stream, asked_drop, asked_alter,
}
use lance_c.Write.Transactions.Rows.{delete-Made, update-Made, merge_insert-Made, compact-Made}
use lance_c.Write.Transactions.Columns.{
  add_columns_sql-Made, add_columns_nulls-Made, add_columns_stream-Made, drop_columns-Made,
  alter_columns-Made,
}

module _ (l : Lance) where
  change_body-Made : {O : Type 0} (c : ChangeCall l O) → Made l c (change_body l c)
  change_body-Made (deletes c) = delete-Made l c
  change_body-Made (updates c u n) = update-Made l c u n
  change_body-Made (merges u n params import) = merge_insert-Made l u n params import
  change_body-Made (compacts o) = compact-Made l o
  change_body-Made (adds_sql u batch_size) = add_columns_sql-Made l u batch_size
  change_body-Made (adds_nulls u) = add_columns_nulls-Made l u
  change_body-Made (adds_stream import batch_size) = add_columns_stream-Made l import batch_size
  change_body-Made (drops u) = drop_columns-Made l u
  change_body-Made (alters u) = alter_columns-Made l u

  -- A call that changes a dataset has one of two outcomes. Either it fails, with the dataset, its lock
  -- and the result slot as they were; or it makes one change under the lock, the one that its arguments
  -- ask for, all of them valid. In that case the call has the outcome of the change: 0, its error, or its
  -- panic. The dataset is then what the change left if it returned, and the old one in a poisoned lock
  -- if it panicked. The result slot is written only if the change succeeded and the pointer is not NULL.
  pub change_body-Transacts :
      {O : Type 0} (c : ChangeCall l O) (s : State LastError (Caller l.Dataset O))
      → Transacts (Asked l O c) s.world.dataset s.world.out (change_body l c s)
  change_body-Transacts c s =
      change_body-Made c s.world.dataset s.world.out s
        (record { dataset_same = refl; out_same = refl })
