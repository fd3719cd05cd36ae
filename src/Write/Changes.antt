-- ===== src/Write/Changes.antt =====
-- Every call that changes a dataset, with the change that its arguments ask for (src/delete.rs,
-- update.rs, merge_insert.rs, compact.rs, add_columns.rs, drop_columns.rs and alter_columns.rs).
use lance_c.Prelude.{
  not, ◌||◌, ℕ, ℤ, String, Option, none, some, false, List, length, Result, ok, ◌==◌, ◌≡◌,
}
use lance_c.Ffi.Outcome.{Caught, done, State}
use lance_c.Ffi.LastError.{LanceError, LastError}
use lance_c.Helpers.{CString, is_null, required_string}
use lance_c.Dataset.{Lock, Mutation}
use lance_c.Merge.{MergeInsertParams, resolve_params}
use lance_c.Write.{Caller, Call, written}
use lance_c.Write.Transacts.{Change, Transacts, Same}
use lance_c.Write.Params.{CCompactionOptions, resolve_options, resolve_batch_size}
use lance_c.Write.Lance.{
  Lance, CSchema, CompactionMetrics, MergeStats, sql_expressions, all_nulls, reader,
  ColumnAlteration,
}
use lance_c.Write.Parse.{
  parse_each, parse_sql_column, parse_name, parse_key, parse_update, parse_predicate, CAlteration,
  parse_alterations,
}
use lance_c.Write.Columns.{
  is_utf8, add_columns_sql, add_columns_nulls, add_columns_stream, drop_columns, alter_columns,
}
use lance_c.Write.Rows.{run_update, run_merge, delete, update, merge_insert, compact}

-- a change whose result goes to the result slot, and one whose result is not asked for
abbrev pub reporting : {D O : Type 0} → Mutation D (Result LanceError O) → Change D O
reporting {D} {O} f = record { R = O; change = f; report = written }

abbrev pub silent : {D O R : Type 0} → Mutation D (Result LanceError R) → Change D O
silent {D} {O} {R} f = record { R = R; change = f; report = λ x o. o }

module _ (l : Lance) where
  -- the calls, but for the dataset, the stream and the result slot, which are in the caller's memory
  pub data ChangeCall : Type 0 → Type 1 where
    deletes : CString → ChangeCall ℕ
    updates : CString → Option (List (CString × CString)) → ℕ → ChangeCall ℕ
    merges :
        Option (List CString)
        → ℕ
        → Option MergeInsertParams
        → Caught (Option l.Schema)
        → ChangeCall MergeStats
    compacts : Option CCompactionOptions → ChangeCall CompactionMetrics
    adds_sql : {O : Type 0} → Option (List (CString × CString)) → ℕ → ChangeCall O
    adds_nulls : {O : Type 0} → Option (CSchema l.Schema) → ChangeCall O
    adds_stream : {O : Type 0} → Caught (Option l.Schema) → ℕ → ChangeCall O
    drops : {O : Type 0} → Option (List CString) → ChangeCall O
    alters : {O : Type 0} → Option (List (CAlteration l.DataType)) → ChangeCall O

  abbrev pub change_body : {O : Type 0} → ChangeCall O → Call l.Dataset O ℤ
  change_body (deletes predicate) = delete l predicate
  change_body (updates predicate entries n) = update l predicate entries n
  change_body (merges on_columns n params import) = merge_insert l on_columns n params import
  change_body (compacts options) = compact l options
  change_body (adds_sql columns batch_size) = add_columns_sql l columns batch_size
  change_body (adds_nulls schema) = add_columns_nulls l schema
  change_body (adds_stream import batch_size) = add_columns_stream l import batch_size
  change_body (drops columns) = drop_columns l columns
  change_body (alters alterations) = alter_columns l alterations

  -- The change that the arguments of a call ask for, all of them read and in range.
  pub data Asked : (O : Type 0) → ChangeCall O → Change l.Dataset O → Type 1 where
    asked_delete :
        (c : CString) (p : String)
        → required_string c "predicate must not be empty" ≡ ok p
        → Asked ℕ (deletes c) (reporting (l.delete p))
    asked_update :
        (c : CString) (u : Option (List (CString × CString))) (entries : List (CString × CString))
        (n : ℕ) (p : Option String) (pairs : List (String × String))
        → u ≡ some entries
        → (n == 0) ≡ false
        → parse_predicate c ≡ ok p
        → parse_each parse_update entries ≡ ok pairs
        → Asked ℕ (updates c u n) (reporting (run_update l p pairs))
    asked_merge :
        (u : Option (List CString)) (entries : List CString) (n : ℕ)
        (params : Option MergeInsertParams) (import : Caught (Option l.Schema)) (keys : List String)
        (r : _) (schema : l.Schema)
        → u ≡ some entries
        → (n == 0) ≡ false
        → parse_each parse_key entries ≡ ok keys
        → resolve_params params ≡ ok r
        → import ≡ done (some schema)
        → Asked MergeStats (merges u n params import) (reporting (run_merge l keys r schema))
    asked_compact :
        (options : Option CCompactionOptions) (r : _)
        → resolve_options l.default_compaction options ≡ ok r
        → Asked CompactionMetrics (compacts options) (reporting (l.compact_files r))
    asked_sql :
        {O : Type 0} (u : Option (List (CString × CString))) (entries : List (CString × CString))
        (batch_size : ℕ) (batch : Option ℕ) (pairs : List (String × String))
        → u ≡ some entries
        → (length entries == 0) ≡ false
        → resolve_batch_size batch_size ≡ ok batch
        → parse_each parse_sql_column entries ≡ ok pairs
        → Asked O (adds_sql u batch_size) (silent (l.add_columns (sql_expressions pairs) batch))
    asked_nulls :
        {O : Type 0} (u : Option (CSchema l.Schema)) (c : CSchema l.Schema) (schema : l.Schema)
        → u ≡ some c
        → (not c.release || is_null c.format) ≡ false
        → not (is_utf8 c.format) ≡ false
        → c.conversion ≡ done (some schema)
        → Asked O (adds_nulls u) (silent (l.add_columns (all_nulls schema) none))
    asked_stream :
        {O : Type 0} (import : Caught (Option l.Schema)) (batch_size : ℕ) (batch : Option ℕ)
        (schema : l.Schema)
        → resolve_batch_size batch_size ≡ ok batch
        → import ≡ done (some schema)
        → Asked O (adds_stream import batch_size) (silent (l.add_columns (reader schema) batch))
    asked_drop :
        {O : Type 0} (u : Option (List CString)) (entries : List CString) (names : List String)
        → u ≡ some entries
        → (length entries == 0) ≡ false
        → parse_each parse_name entries ≡ ok names
        → Asked O (drops u) (silent (l.drop_columns names))
    asked_alter :
        {O : Type 0} (u : Option (List (CAlteration l.DataType)))
        (entries : List (CAlteration l.DataType)) (owned : List (ColumnAlteration l.DataType))
        → u ≡ some entries
        → (length entries == 0) ≡ false
        → parse_alterations entries ≡ done (ok owned)
        → Asked O (alters u) (silent (l.alter_columns owned))

  -- what each call does
  abbrev pub Made : {O : Type 0} → ChangeCall O → Call l.Dataset O ℤ → Type 1
  Made {O} c m =
      (dataset : Option (Lock l.Dataset)) (out : Option O)
      (s : State LastError (Caller l.Dataset O))
      → Same dataset out s
      → Transacts (Asked O c) dataset out (m s)
