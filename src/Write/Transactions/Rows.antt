-- ===== src/Write/Transactions/Rows.antt =====
-- The calls that change rows: src/delete.rs, src/update.rs, src/merge_insert.rs and src/compact.rs.
use lance_c.Prelude.{some, ℕ, Option, List, ◌≡◌}
use lance_c.Ffi.Outcome.{Caught, done}
use lance_c.Helpers.{CString, required_string}
use lance_c.Merge.{MergeInsertParams, resolve_params}
use lance_c.Write.{◌>>=◌, require, with_reader, written}
use lance_c.Write.Transacts.{
  written-Reports, after_given, after_require, after_refuse_if, after_pointer, after_stream,
  after_change, after_reader,
}
use lance_c.Write.Params.{CCompactionOptions, resolve_options}
use lance_c.Write.Lance.{Lance}
use lance_c.Write.Parse.{parse_each, parse_key, parse_update, parse_predicate}
use lance_c.Write.Rows.{run_update, run_merge, delete, update, merge_reader, merge_insert, compact}
use lance_c.Write.Changes.{
  deletes, updates, merges, compacts, Made, asked_delete, asked_update, asked_merge, asked_compact,
}

module _ (l : Lance) where
  pub delete-Made : (c : CString) → Made l (deletes c) (delete l c)
  unfolding delete
  delete-Made c dataset out s same = after_pointer _ s same (
      after_refuse_if _ s same _ _ λ there. after_require _ s same s.world.dataset _ λ lock here.
        after_given _ s same (required_string c _) λ p parsed.
          after_change lock (l.delete p) _ written written-Reports s same here
            (asked_delete c p parsed))

  pub update-Made :
      (c : CString) (u : Option (List (CString × CString))) (n : ℕ)
      → Made l (updates c u n) (update l c u n)
  unfolding update
  update-Made c u n dataset out s same = after_pointer _ s same (
      after_require _ s same s.world.dataset _ λ lock here.
        after_refuse_if _ s same _ _ λ some_updates. after_require _ s same u _ λ entries given_.
          after_given _ s same (parse_predicate c) λ p predicate.
            after_given _ s same (parse_each parse_update entries) λ pairs parsed.
              after_change lock (run_update l p pairs) _ written written-Reports s same here
                (asked_update c u entries n p pairs given_ some_updates predicate parsed))

  pub compact-Made : (o : Option CCompactionOptions) → Made l (compacts o) (compact l o)
  unfolding compact
  compact-Made o dataset out s same = after_pointer _ s same (
      after_require _ s same s.world.dataset _ λ lock here.
        after_given _ s same (resolve_options l.default_compaction o) λ r resolved.
          after_change lock (l.compact_files r) _ written written-Reports s same here
            (asked_compact o r resolved))

  merge_reader-Made :
      (u : Option (List CString)) (n : ℕ) (params : Option MergeInsertParams)
      (import : Caught (Option l.Schema)) (schema : l.Schema)
      → import ≡ done (some schema)
      → Made l (merges u n params import) (merge_reader l u n params schema)
  unfolding merge_reader
  merge_reader-Made u n params import schema imported dataset out s same = after_pointer _ s same (
      after_require _ s same s.world.dataset _ λ lock here.
        after_refuse_if _ s same _ _ λ some_keys. after_require _ s same u _ λ entries given_.
          after_given _ s same (parse_each parse_key entries) λ keys parsed.
            after_given _ s same (resolve_params params) λ r resolved.
              after_change lock (run_merge l keys r schema) _ written written-Reports s same here (
                asked_merge u entries n params import keys r schema given_ some_keys parsed resolved
                  imported))

  pub merge_insert-Made :
      (on_columns : Option (List CString)) (n : ℕ) (params : Option MergeInsertParams)
      (import : Caught (Option l.Schema))
      → Made l (merges on_columns n params import) (merge_insert l on_columns n params import)
  unfolding merge_insert
  merge_insert-Made on_columns n params import dataset out s same =
      after_stream
        (λ source. require source "source stream must not be NULL" >>= λ src.
          with_reader src import (merge_reader l on_columns n params))
        s same
        (after_require (λ src. with_reader src import (merge_reader l on_columns n params)) s same
          s.world.source "source stream must not be NULL"
          λ src here.
            after_reader src import (merge_reader l on_columns n params) s same
              λ schema t same_t imported.
                merge_reader-Made on_columns n params import schema imported dataset out t same_t)
