-- ===== src/Write/Transactions/Columns.antt =====
-- The calls that change columns: src/add_columns.rs, src/drop_columns.rs and src/alter_columns.rs.
use lance_c.Prelude.{
  not, ◌||◌, false, ℕ, Option, none, some, Bool, true, false, List, ok_inj, ◌≡◌, refl, ap, ◌∙◌,
}
use lance_c.Ffi.Outcome.{Caught, done, panicked, State}
use lance_c.Ffi.LastError.{LastError}
use lance_c.Helpers.{CString, is_null}
use lance_c.Dataset.{Lock}
use lance_c.Write.{Caller, ◌>>=◌, require}
use lance_c.Write.Transacts.{
  Transacts, refused, Same, silent-Reports, after_given, after_attempt, after_require,
  after_refuse_if, after_pointer, after_stream, after_change, after_reader,
}
use lance_c.Write.Params.{resolve_batch_size}
use lance_c.Write.Lance.{Lance, CSchema, NewColumnTransform, all_nulls, reader}
use lance_c.Write.Parse.{parse_each, parse_sql_column, parse_name, CAlteration, parse_alterations}
use lance_c.Write.Columns.{
  is_utf8, add_columns_sql, add_to, schema_of, add_columns_nulls, add_reader, add_source,
  add_columns_stream, drop_columns, alter_columns,
}
use lance_c.Write.Changes.{
  silent, ChangeCall, adds_sql, adds_nulls, adds_stream, drops, alters, Made, Asked, asked_sql,
  asked_nulls, asked_stream, asked_drop, asked_alter,
}

module _ (l : Lance) where
  added :
      {O : Type 0} (c : ChangeCall l O) (t : NewColumnTransform l.Schema) (batch : Option ℕ)
      (lock : Lock l.Dataset) (dataset : Option (Lock l.Dataset)) (out : Option O)
      (s : State LastError (Caller l.Dataset O))
      → Same dataset out s
      → s.world.dataset ≡ some lock
      → Asked l O c (silent (l.add_columns t batch))
      → Transacts (Asked l O c) dataset out (add_to l lock t batch s)
  added c t batch lock dataset out s same here asked =
      after_change lock (l.add_columns t batch) _ (λ x o. o) silent-Reports s same here asked

  pub add_columns_sql-Made :
      {O : Type 0} (u : Option (List (CString × CString))) (batch_size : ℕ)
      → Made l {O = O} (adds_sql u batch_size) (add_columns_sql l u batch_size)
  unfolding add_columns_sql
  add_columns_sql-Made u batch_size dataset out s same = after_pointer _ s same (
      after_require _ s same s.world.dataset _ λ lock here.
        after_require _ s same u _ λ entries given_. after_refuse_if _ s same _ _ λ some_columns.
          after_given _ s same (resolve_batch_size batch_size) λ batch resolved.
            after_given _ s same (parse_each parse_sql_column entries) λ pairs parsed.
              added (adds_sql u batch_size) _ batch lock dataset out s same here
                (asked_sql u entries batch_size batch pairs given_ some_columns resolved parsed))

  pub add_columns_nulls-Made :
      {O : Type 0} (u : Option (CSchema l.Schema))
      → Made l {O = O} (adds_nulls u) (add_columns_nulls l u)
  unfolding add_columns_nulls
  add_columns_nulls-Made u dataset out s same = after_pointer _ s same (
      after_require _ s same s.world.dataset _ λ lock here. after_require _ s same u _ λ c given_.
        after_refuse_if _ s same _ _ λ unreleased.
          after_refuse_if _ s same _ _
            λ formatted. converted lock here c given_ unreleased formatted c.conversion refl)
    where
      converted :
          (lock : Lock l.Dataset)
          → s.world.dataset ≡ some lock
          → (c : CSchema l.Schema) → u ≡ some c
          → (not c.release || is_null c.format) ≡ false
          → not (is_utf8 c.format) ≡ false
          → (r : Caught (Option l.Schema)) → c.conversion ≡ r
          → Transacts
              (Asked l _ (adds_nulls u))
              dataset
              out
              ((schema_of l r >>= λ schema. add_to l lock (all_nulls schema) none) s)
      converted lock here c given_ unreleased formatted (done none) e =
          after_given _ s same _ λ a h. cc
      converted lock here c given_ unreleased formatted (done (some schema)) e =
          after_given _ s same _ λ a h.
            added (adds_nulls u) _ none lock dataset out s same here (
              asked_nulls u c a given_ unreleased formatted
                (e ∙ ap (λ x. done (some x)) (ok_inj h)))
      converted lock here c given_ unreleased formatted (panicked p) e =
          after_attempt _ s same _ λ a h. cc

  add_reader-Made :
      {O : Type 0} (batch_size : ℕ) (import : Caught (Option l.Schema)) (schema : l.Schema)
      → import ≡ done (some schema)
      → Made l {O = O} (adds_stream import batch_size) (add_reader l batch_size schema)
  unfolding add_reader
  add_reader-Made batch_size import schema imported dataset out s same = after_pointer _ s same (
      after_require _ s same s.world.dataset _ λ lock here.
        after_given _ s same (resolve_batch_size batch_size) λ batch resolved.
          added (adds_stream import batch_size) (reader schema) batch lock dataset out s same here
            (asked_stream import batch_size batch schema resolved imported))

  add_source-Made :
      {O : Type 0} (import : Caught (Option l.Schema)) (batch_size : ℕ)
      (release get_schema get_next : Bool) (n : ℕ)
      → Made l {O = O} (adds_stream import batch_size) (
          add_source l import batch_size (record {
            release = release;
            get_schema = get_schema;
            get_next = get_next;
            released = n;
          }))
  add_source-Made import batch_size true true true n dataset out s same =
      after_reader _ import (add_reader l batch_size) s same λ schema t same_t imported.
        add_reader-Made batch_size import schema imported dataset out t same_t
  add_source-Made import batch_size true true false n dataset out s same =
      refused _ _ tt same.dataset_same same.out_same
  add_source-Made import batch_size true false g n dataset out s same =
      refused _ _ tt same.dataset_same same.out_same
  add_source-Made import batch_size false f g n dataset out s same =
      refused _ _ tt same.dataset_same same.out_same

  pub add_columns_stream-Made :
      {O : Type 0} (import : Caught (Option l.Schema)) (batch_size : ℕ)
      → Made l {O = O} (adds_stream import batch_size) (add_columns_stream l import batch_size)
  unfolding add_columns_stream
  add_columns_stream-Made import batch_size dataset out s same =
      after_stream
        (λ stream.
          require stream "stream must not be NULL" >>= λ src. add_source l import batch_size src)
        s same
        (after_require (λ src. add_source l import batch_size src) s same s.world.source
          "stream must not be NULL"
          λ src here.
            add_source-Made import batch_size src.release src.get_schema src.get_next src.released
              dataset out s same)

  pub drop_columns-Made :
      {O : Type 0} (u : Option (List CString)) → Made l {O = O} (drops u) (drop_columns l u)
  unfolding drop_columns
  drop_columns-Made u dataset out s same = after_pointer _ s same (
      after_require _ s same s.world.dataset _ λ lock here.
        after_require _ s same u _ λ entries given_. after_refuse_if _ s same _ _ λ some_columns.
          after_given _ s same (parse_each parse_name entries) λ names parsed.
            after_change lock (l.drop_columns names) _ (λ x o. o) silent-Reports s same here
              (asked_drop u entries names given_ some_columns parsed))

  pub alter_columns-Made :
      {O : Type 0} (u : Option (List (CAlteration l.DataType)))
      → Made l {O = O} (alters u) (alter_columns l u)
  unfolding alter_columns
  alter_columns-Made u dataset out s same = after_pointer _ s same (
      after_require _ s same s.world.dataset _ λ lock here.
        after_require _ s same u _ λ entries given_.
          after_refuse_if _ s same _ _ λ some_alterations.
            after_attempt _ s same (parse_alterations entries) λ owned parsed.
              after_change lock (l.alter_columns owned) _ (λ x o. o) silent-Reports s same here
                (asked_alter u entries owned given_ some_alterations parsed))
