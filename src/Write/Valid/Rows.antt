-- ===== src/Write/Valid/Rows.antt =====
-- The calls that change rows, with valid arguments: src/delete.rs, src/update.rs, src/merge_insert.rs
-- and src/compact.rs.
use lance_c.Prelude.{
  ◌||◌, ℕ, String, Option, some, false, List, ok, ◌==◌, ◌≡◌, refl, true, sym, subst,
}
use lance_c.Ffi.Outcome.{Caught, done, State}
use lance_c.Ffi.LastError.{LastError}
use lance_c.Helpers.{CString, is_null, required_string, parse_c_string, null, utf8, bytes}
use lance_c.Dataset.{Lock}
use lance_c.Merge.{MergeInsertParams, ResolvedParams, resolve_params}
use lance_c.Write.{take_source, Source, Caller, ◌>>=◌, require, with_reader, written}
use lance_c.Write.Transacts.{Change, written-Reports}
use lance_c.Write.Params.{CCompactionOptions, CompactionOptions, resolve_options}
use lance_c.Write.Lance.{Lance, CompactionMetrics, MergeStats}
use lance_c.Write.Parse.{parse_each, parse_key, parse_update, parse_predicate}
use lance_c.Write.Columns.{is_missing}
use lance_c.Write.Rows.{run_update, run_merge, delete, update, merge_reader, merge_insert, compact}
use lance_c.Write.Changes.{reporting}
use lance_c.Write.Valid.{
  Acts, past_given, past_require, past_refuse_if, past_reader, past_pointer, past_stream,
  makes_change,
}

-- what a call may be given, if it is not refused for the predicate
is_null-required_string :
    (c : CString) (message p : String) → required_string c message ≡ ok p → is_null c ≡ false
unfolding required_string parse_c_string
is_null-required_string null message p e = cc
is_null-required_string (utf8 s) message p e = refl
is_null-required_string bytes message p e = refl

module _ (l : Lance) where
  pub delete-Acts :
      (c : CString) (p : String) (lock : Lock l.Dataset) (s : State LastError (Caller l.Dataset ℕ))
      → required_string c "predicate must not be empty" ≡ ok p
      → s.world.dataset ≡ some lock
      → Acts (reporting (l.delete p)) lock s (delete l c)
  unfolding delete
  delete-Acts c p lock s e here = past_pointer _ s (
      past_refuse_if _ s _
        (subst (λ o. (is_missing o || is_null c) ≡ false) (sym here)
          (is_null-required_string c _ p e))
        (past_require _ s _ here
          (past_given _ s e (makes_change lock (l.delete p) _ written written-Reports s))))

  pub update-Acts :
      (c : CString) (u : Option (List (CString × CString))) (entries : List (CString × CString))
      (n : ℕ) (p : Option String) (pairs : List (String × String)) (lock : Lock l.Dataset)
      (s : State LastError (Caller l.Dataset ℕ))
      → u ≡ some entries
      → (n == 0) ≡ false
      → parse_predicate c ≡ ok p
      → parse_each parse_update entries ≡ ok pairs
      → s.world.dataset ≡ some lock
      → Acts (reporting (run_update l p pairs)) lock s (update l c u n)
  unfolding update
  update-Acts c u entries n p pairs lock s given_ some_updates predicate parsed here =
      past_pointer _ s (
        past_require _ s _ here (
          past_refuse_if _ s _ some_updates (
            past_require _ s _ given_ (
              past_given _ s predicate (
                past_given _ s parsed
                  (makes_change lock (run_update l p pairs) _ written written-Reports s))))))

  pub merge_reader-Acts :
      (u : Option (List CString)) (entries : List CString) (n : ℕ)
      (params : Option MergeInsertParams) (keys : List String) (r : ResolvedParams)
      (schema : l.Schema) (lock : Lock l.Dataset)
      (s : State LastError (Caller l.Dataset MergeStats))
      → u ≡ some entries
      → (n == 0) ≡ false
      → parse_each parse_key entries ≡ ok keys
      → resolve_params params ≡ ok r
      → s.world.dataset ≡ some lock
      → Acts (reporting (run_merge l keys r schema)) lock s (merge_reader l u n params schema)
  unfolding merge_reader
  merge_reader-Acts u entries n params keys r schema lock s given_ some_keys parsed resolved here =
      past_pointer _ s (
        past_require _ s _ here (
          past_refuse_if _ s _ some_keys (
            past_require _ s _ given_ (
              past_given _ s parsed (
                past_given _ s resolved
                  (makes_change lock (run_merge l keys r schema) _ written written-Reports s))))))

  pub merge_insert-Acts :
      (u : Option (List CString)) (n : ℕ) (params : Option MergeInsertParams)
      (import : Caught (Option l.Schema)) (schema : l.Schema) (ch : Change l.Dataset MergeStats)
      (lock : Lock l.Dataset) (src : Source) (s : State LastError (Caller l.Dataset MergeStats))
      → import ≡ done (some schema)
      → s.world.source ≡ some src
      → src.release ≡ true
      → Acts ch lock
          (record s { world = take_source src s.world })
          (merge_reader l u n params schema)
      → Acts ch lock s (merge_insert l u n params import)
  unfolding merge_insert
  merge_insert-Acts u n params import schema ch lock src s imported fed live acts =
      past_stream
        (λ source. require source "source stream must not be NULL" >>= λ src.
          with_reader src import (merge_reader l u n params))
        s
        (past_require (λ src. with_reader src import (merge_reader l u n params)) s
          "source stream must not be NULL" fed
          (past_reader src (merge_reader l u n params) s live imported acts))

  pub compact-Acts :
      (o : Option CCompactionOptions) (r : CompactionOptions) (lock : Lock l.Dataset)
      (s : State LastError (Caller l.Dataset CompactionMetrics))
      → resolve_options l.default_compaction o ≡ ok r
      → s.world.dataset ≡ some lock
      → Acts (reporting (l.compact_files r)) lock s (compact l o)
  unfolding compact
  compact-Acts o r lock s resolved here = past_pointer _ s (
      past_require _ s _ here (
        past_given _ s resolved
          (makes_change lock (l.compact_files r) _ written written-Reports s)))
