-- ===== src/Merge.antt =====
-- The parameters of `lance_dataset_merge_insert` (src/merge_insert.rs): the C struct with its codes,
-- and what `resolve_params` makes of it. `WhenMatched` and `WhenNotMatched` are types of Lance, of
-- which the variants that the source builds are what is needed.
pub mod Params
mod Examples
use text.Mathlib.Text.{◌==◌ as str_eq}
use lance_c.Prelude.{
  ℤ, pos, negsuc, String, Option, none, some, Bool, true, false, Result, ok, err, ◌>>=◌, ◌>>◌, ◌==◌,
  if◌then◌else◌,
}
use lance_c.Ffi.LastError.{LanceError}
use lance_c.Helpers.{CString, parse_c_string}
use lance_c.Scanner.Config.{invalid}

pub data MergeWhenMatched : Type 0 where
  do_nothing update_all update_if fail delete : MergeWhenMatched

pub data MergeWhenNotMatched : Type 0 where
  insert_all do_nothing : MergeWhenNotMatched

pub data MergeWhenNotMatchedBySource : Type 0 where
  keep delete delete_if : MergeWhenNotMatchedBySource

-- `LanceMergeWhenMatched::from_raw`
unfoldable pub when_matched_from_raw : ℤ → Result LanceError MergeWhenMatched
when_matched_from_raw (negsuc n) = err (invalid "invalid when_matched")
when_matched_from_raw (pos n) =
    if n == 0
    then ok MergeWhenMatched.do_nothing
    else if n == 1
    then ok MergeWhenMatched.update_all
    else if n == 2
    then ok MergeWhenMatched.update_if
    else if n == 3
    then ok MergeWhenMatched.fail
    else if n == 4
    then ok MergeWhenMatched.delete
    else err (invalid "invalid when_matched")

-- `LanceMergeWhenNotMatched::from_raw`
unfoldable pub when_not_matched_from_raw : ℤ → Result LanceError MergeWhenNotMatched
when_not_matched_from_raw (negsuc n) = err (invalid "invalid when_not_matched")
when_not_matched_from_raw (pos n) =
    if n == 0
    then ok MergeWhenNotMatched.insert_all
    else if n == 1
    then ok MergeWhenNotMatched.do_nothing
    else err (invalid "invalid when_not_matched")

-- `LanceMergeWhenNotMatchedBySource::from_raw`
unfoldable pub by_source_from_raw : ℤ → Result LanceError MergeWhenNotMatchedBySource
by_source_from_raw (negsuc n) = err (invalid "invalid when_not_matched_by_source")
by_source_from_raw (pos n) =
    if n == 0
    then ok MergeWhenNotMatchedBySource.keep
    else if n == 1
    then ok MergeWhenNotMatchedBySource.delete
    else if n == 2
    then ok MergeWhenNotMatchedBySource.delete_if
    else err (invalid "invalid when_not_matched_by_source")

pub record MergeInsertParams : Type 0 where
  pub when_matched : ℤ
  pub when_matched_expr : CString
  pub when_not_matched : ℤ
  pub when_not_matched_by_source : ℤ
  pub when_not_matched_by_source_expr : CString

pub data WhenMatched : Type 0 where
  do_nothing update_all fail delete : WhenMatched
  update_if : String → WhenMatched

pub data ResolvedWhenNotMatchedBySource : Type 0 where
  keep delete : ResolvedWhenNotMatchedBySource
  delete_if : String → ResolvedWhenNotMatchedBySource

-- Lance's `WhenNotMatched` has the two variants of the C enum here.
pub record ResolvedParams : Type 0 where
  pub when_matched : WhenMatched
  pub when_not_matched : MergeWhenNotMatched
  pub when_not_matched_by_source : ResolvedWhenNotMatchedBySource

abbrev pub default_params : ResolvedParams
default_params = record {
  when_matched = WhenMatched.do_nothing;
  when_not_matched = MergeWhenNotMatched.insert_all;
  when_not_matched_by_source = ResolvedWhenNotMatchedBySource.keep;
}

abbrev pub filled_expr : Option String → Result LanceError (Option String)
filled_expr none = ok none
filled_expr (some s) = if str_eq s "" then err (invalid "must not be empty") else ok (some s)

unfoldable pub read_optional_expr : CString → Result LanceError (Option String)
unfolding parse_c_string
read_optional_expr c = do parsed ← parse_c_string c; filled_expr parsed

abbrev pub reject_unused_expr : Option String → Result LanceError (Unit {0})
reject_unused_expr none = ok tt
reject_unused_expr (some expr) = err (invalid "must be NULL")

abbrev pub with_expr : {A : Type 0} → Option String → String → (String → A) → Result LanceError A
with_expr none message f = err (invalid message)
with_expr (some expr) message f = ok (f expr)

unfoldable pub resolve_when_matched :
    MergeWhenMatched → Option String → Result LanceError WhenMatched
resolve_when_matched MergeWhenMatched.do_nothing expr = do
  reject_unused_expr expr
  ok WhenMatched.do_nothing
resolve_when_matched MergeWhenMatched.update_all expr = do
  reject_unused_expr expr
  ok WhenMatched.update_all
resolve_when_matched MergeWhenMatched.update_if expr =
    with_expr expr "when_matched=UpdateIf requires when_matched_expr" WhenMatched.update_if
resolve_when_matched MergeWhenMatched.fail expr = do reject_unused_expr expr; ok WhenMatched.fail
resolve_when_matched MergeWhenMatched.delete expr = do
  reject_unused_expr expr
  ok WhenMatched.delete

unfoldable pub resolve_by_source :
    MergeWhenNotMatchedBySource → Option String → Result LanceError ResolvedWhenNotMatchedBySource
resolve_by_source MergeWhenNotMatchedBySource.keep expr = do
  reject_unused_expr expr
  ok ResolvedWhenNotMatchedBySource.keep
resolve_by_source MergeWhenNotMatchedBySource.delete expr = do
  reject_unused_expr expr
  ok ResolvedWhenNotMatchedBySource.delete
resolve_by_source MergeWhenNotMatchedBySource.delete_if expr =
    with_expr expr "when_not_matched_by_source=DeleteIf requires when_not_matched_by_source_expr"
      ResolvedWhenNotMatchedBySource.delete_if

unfoldable pub resolve_params : Option MergeInsertParams → Result LanceError ResolvedParams
unfolding when_matched_from_raw when_not_matched_from_raw by_source_from_raw read_optional_expr
    resolve_when_matched resolve_by_source
resolve_params none = ok default_params
resolve_params (some params) = do
  when_matched_kind ← when_matched_from_raw params.when_matched
  when_not_matched ← when_not_matched_from_raw params.when_not_matched
  by_source_kind ← by_source_from_raw params.when_not_matched_by_source
  when_matched_expr ← read_optional_expr params.when_matched_expr
  by_source_expr ← read_optional_expr params.when_not_matched_by_source_expr
  when_matched ← resolve_when_matched when_matched_kind when_matched_expr
  by_source ← resolve_by_source by_source_kind by_source_expr
  ok (record {
    when_matched = when_matched;
    when_not_matched = when_not_matched;
    when_not_matched_by_source = by_source;
  })
