-- ===== src/Write/Valid/Calls.antt =====
-- Every call whose arguments are valid makes its change (src/delete.rs, update.rs, merge_insert.rs,
-- compact.rs, add_columns.rs, drop_columns.rs and alter_columns.rs).
use lance_c.Prelude.{Option, some, ◌≡◌, true}
use lance_c.Ffi.Outcome.{State}
use lance_c.Ffi.LastError.{LastError}
use lance_c.Dataset.{Lock}
use lance_c.Write.{Source, Caller}
use lance_c.Write.Transacts.{Change}
use lance_c.Write.Lance.{Lance}
use lance_c.Write.Changes.{
  ChangeCall, merges, adds_stream, change_body, Asked, asked_delete, asked_update, asked_merge,
  asked_compact, asked_sql, asked_nulls, asked_stream, asked_drop, asked_alter,
}
use lance_c.Write.Valid.{Acted}
use lance_c.Write.Valid.Rows.{
  delete-Acts, update-Acts, merge_reader-Acts, merge_insert-Acts, compact-Acts,
}
use lance_c.Write.Valid.Columns.{
  IsLive, add_columns_sql-Acts, add_columns_nulls-Acts, drop_columns-Acts, alter_columns-Acts,
  add_columns_stream-Acts,
}

-- the stream that a call is handed, if it takes one
abbrev pub IsFed : {l : Lance} {O : Type 0} → ChangeCall l O → Option Source → Type 0
IsFed (merges u n params import) source =
    (src : Source) × (source ≡ some src) × (src.release ≡ true)
IsFed (adds_stream import n) source = (src : Source) × (source ≡ some src) × IsLive src
IsFed c source = Unit

module _ (l : Lance) where
  -- A call that changes a dataset makes the change that its arguments ask for, if it is given a
  -- dataset and, where it takes one, a stream that can be imported: it has the outcome of the change,
  -- leaves its dataset, with the lock poisoned if it panicked, and reports a success in the result slot.
  pub change_body-Acted :
      {O : Type 0} (c : ChangeCall l O) (ch : Change l.Dataset O) (lock : Lock l.Dataset)
      (s : State LastError (Caller l.Dataset O))
      → Asked l O c ch
      → s.world.dataset ≡ some lock
      → IsFed c s.world.source
      → Acted ch lock s.world.out (change_body l c s)
  change_body-Acted _ _ lock s (asked_delete c p e) here fed = delete-Acts l c p lock s e here
  change_body-Acted _ _ lock s (asked_update c u entries n p pairs a b d e) here fed =
      update-Acts l c u entries n p pairs lock s a b d e here
  change_body-Acted _ _ lock s (asked_merge u entries n params import keys r schema a b d e f) here
        (src, fed, live) =
      merge_insert-Acts l u n params import schema _ lock src s f fed live
        (merge_reader-Acts l u entries n params keys r schema lock _ a b d e here)
  change_body-Acted _ _ lock s (asked_compact o r e) here fed = compact-Acts l o r lock s e here
  change_body-Acted _ _ lock s (asked_sql u entries n batch pairs a b d e) here fed =
      add_columns_sql-Acts l lock s here u entries n batch pairs a b d e
  change_body-Acted _ _ lock s (asked_nulls u c schema a b d e) here fed =
      add_columns_nulls-Acts l lock s here u c schema a b d e
  change_body-Acted _ _ lock s (asked_stream import n batch schema a b) here (src, fed, live) =
      add_columns_stream-Acts l lock s here import n batch schema src a b fed live
  change_body-Acted _ _ lock s (asked_drop u entries names a b d) here fed =
      drop_columns-Acts l lock s here u entries names a b d
  change_body-Acted _ _ lock s (asked_alter u entries owned a b d) here fed =
      alter_columns-Acts l lock s here u entries owned a b d
