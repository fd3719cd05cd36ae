-- ===== src/Write/Valid/Columns.antt =====
-- The calls that change columns, with valid arguments: src/add_columns.rs, src/drop_columns.rs and
-- src/alter_columns.rs.
use lance_c.Prelude.{
  not, ◌||◌, ℕ, String, Option, none, some, false, List, length, ok, ◌==◌, ◌≡◌, refl, true, Bool,
  sym, subst,
}
use lance_c.Ffi.Outcome.{Caught, done, State}
use lance_c.Ffi.LastError.{LastError}
use lance_c.Helpers.{CString, is_null}
use lance_c.Dataset.{Lock}
use lance_c.Write.{Source, Caller, ◌>>=◌, require}
use lance_c.Write.Transacts.{silent-Reports}
use lance_c.Write.Params.{resolve_batch_size}
use lance_c.Write.Lance.{Lance, CSchema, sql_expressions, all_nulls, reader, ColumnAlteration}
use lance_c.Write.Parse.{parse_each, parse_sql_column, parse_name, CAlteration, parse_alterations}
use lance_c.Write.Columns.{
  is_utf8, schema_of, add_to, add_reader, add_source, add_columns_sql, add_columns_nulls,
  add_columns_stream, drop_columns, alter_columns,
}
use lance_c.Write.Changes.{silent}
use lance_c.Write.Valid.{
  Acts, past_given, past_attempt, past_require, past_refuse_if, past_reader, past_pointer,
  past_stream, makes_change,
}

-- a stream that can be imported
abbrev pub IsLive : Source → Type 0
IsLive src = (src.release ≡ true) × (src.get_schema ≡ true) × (src.get_next ≡ true)

module _ (l : Lance) where
  module _ {O : Type 0} (lock : Lock l.Dataset) (s : State LastError (Caller l.Dataset O))
      (here : s.world.dataset ≡ some lock) where
    pub add_columns_sql-Acts :
        (u : Option (List (CString × CString))) (entries : List (CString × CString))
        (batch_size : ℕ) (batch : Option ℕ) (pairs : List (String × String))
        → u ≡ some entries
        → (length entries == 0) ≡ false
        → resolve_batch_size batch_size ≡ ok batch
        → parse_each parse_sql_column entries ≡ ok pairs
        → Acts
            (silent (l.add_columns (sql_expressions pairs) batch))
            lock
            s
            (add_columns_sql l u batch_size)
    unfolding add_columns_sql
    add_columns_sql-Acts u entries batch_size batch pairs given_ some_columns resolved parsed =
        past_pointer _ s (
          past_require _ s _ here (
            past_require _ s _ given_ (
              past_refuse_if _ s _ some_columns (
                past_given _ s resolved (
                  past_given _ s parsed (
                    makes_change lock (l.add_columns (sql_expressions pairs) batch) _ (λ x o. o)
                      silent-Reports s))))))

    pub add_columns_nulls-Acts :
        (u : Option (CSchema l.Schema)) (c : CSchema l.Schema) (schema : l.Schema)
        → u ≡ some c
        → (not c.release || is_null c.format) ≡ false
        → not (is_utf8 c.format) ≡ false
        → c.conversion ≡ done (some schema)
        → Acts (silent (l.add_columns (all_nulls schema) none)) lock s (add_columns_nulls l u)
    unfolding add_columns_nulls
    add_columns_nulls-Acts u c schema given_ unreleased formatted converted = past_pointer _ s (
        past_require _ s _ here (
          past_require _ s _ given_ (
            past_refuse_if _ s _ unreleased (
              past_refuse_if _ s _ formatted (
                subst
                  (λ r.
                    Acts (silent (l.add_columns (all_nulls schema) none)) lock s (
                      schema_of l r >>= λ arrow_schema.
                      add_to l lock (all_nulls arrow_schema) none))
                  (sym converted)
                  (past_given _ s refl (
                    makes_change lock (l.add_columns (all_nulls schema) none) _ (λ x o. o)
                      silent-Reports s)))))))

    pub drop_columns-Acts :
        (u : Option (List CString)) (entries : List CString) (names : List String)
        → u ≡ some entries
        → (length entries == 0) ≡ false
        → parse_each parse_name entries ≡ ok names
        → Acts (silent (l.drop_columns names)) lock s (drop_columns l u)
    unfolding drop_columns
    drop_columns-Acts u entries names given_ some_columns parsed = past_pointer _ s (
        past_require _ s _ here (
          past_require _ s _ given_ (
            past_refuse_if _ s _ some_columns (
              past_given _ s parsed
                (makes_change lock (l.drop_columns names) _ (λ x o. o) silent-Reports s)))))

    pub alter_columns-Acts :
        (u : Option (List (CAlteration l.DataType))) (entries : List (CAlteration l.DataType))
        (owned : List (ColumnAlteration l.DataType))
        → u ≡ some entries
        → (length entries == 0) ≡ false
        → parse_alterations entries ≡ done (ok owned)
        → Acts (silent (l.alter_columns owned)) lock s (alter_columns l u)
    unfolding alter_columns
    alter_columns-Acts u entries owned given_ some_alterations parsed = past_pointer _ s (
        past_require _ s _ here (
          past_require _ s _ given_ (
            past_refuse_if _ s _ some_alterations (
              past_attempt _ s parsed
                (makes_change lock (l.alter_columns owned) _ (λ x o. o) silent-Reports s)))))

    pub add_reader-Acts :
        (batch_size : ℕ) (batch : Option ℕ) (schema : l.Schema)
        → resolve_batch_size batch_size ≡ ok batch
        → Acts
            (silent (l.add_columns (reader schema) batch))
            lock
            s
            (add_reader l batch_size schema)
    unfolding add_reader
    add_reader-Acts batch_size batch schema resolved = past_pointer _ s (
        past_require _ s _ here (
          past_given _ s resolved (
            makes_change lock (l.add_columns (reader schema) batch) _ (λ x o. o) silent-Reports s)))

  module _ {O : Type 0} (lock : Lock l.Dataset) (s : State LastError (Caller l.Dataset O))
      (here : s.world.dataset ≡ some lock) where
    pub add_source-Acts :
        (import : Caught (Option l.Schema)) (batch_size : ℕ) (batch : Option ℕ) (schema : l.Schema)
        (n : ℕ)
        → resolve_batch_size batch_size ≡ ok batch
        → import ≡ done (some schema)
        → Acts (silent (l.add_columns (reader schema) batch)) lock s (
            add_source l import batch_size
              (record { release = true; get_schema = true; get_next = true; released = n }))
    add_source-Acts import batch_size batch schema n resolved imported =
        past_reader _ (add_reader l batch_size) s refl imported
          (add_reader-Acts lock _ here batch_size batch schema resolved)

    pub add_columns_stream-Acts :
        (import : Caught (Option l.Schema)) (batch_size : ℕ) (batch : Option ℕ) (schema : l.Schema)
        (src : Source)
        → resolve_batch_size batch_size ≡ ok batch
        → import ≡ done (some schema)
        → s.world.source ≡ some src
        → IsLive src
        → Acts
            (silent (l.add_columns (reader schema) batch))
            lock
            s
            (add_columns_stream l import batch_size)
    unfolding add_columns_stream
    add_columns_stream-Acts import batch_size batch schema src resolved imported fed
          (live, has_schema, has_next) =
        past_stream
          (λ stream.
            require stream "stream must not be NULL" >>= λ src. add_source l import batch_size src)
          s
          (past_require (λ src. add_source l import batch_size src) s "stream must not be NULL" fed
            (subst
              (λ b. Acts (silent (l.add_columns (reader schema) batch)) lock s (
                add_source l import batch_size (record {
                  release = b.0;
                  get_schema = b.1;
                  get_next = b.2;
                  released = src.released;
                })))
              (sym (ap3 live has_schema has_next))
              (add_source-Acts import batch_size batch schema src.released resolved imported)))
      where
        ap3 :
            {a b c : Bool}
            → a ≡ true
            → b ≡ true
            → c ≡ true
            → Path (Bool × Bool × Bool) (a, b, c) (true, true, true)
        ap3 e f g = λ i. (e i, f i, g i)
