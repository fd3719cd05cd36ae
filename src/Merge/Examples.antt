-- ===== src/Merge/Examples.antt =====
-- A merge that updates where a condition holds.
use lance_c.Prelude.{pos, some, ok, ◌≡◌, ◌↔◌, refl}
use lance_c.Helpers.{null, utf8}
use lance_c.Merge.{
  MergeWhenNotMatched, MergeInsertParams, WhenMatched, ResolvedWhenNotMatchedBySource,
  ResolvedParams, resolve_params,
}
use lance_c.Merge.Params.{Encodes, resolve_params-Encodes}

abbrev newer : MergeInsertParams
newer = record {
  when_matched = pos 2;
  when_matched_expr = utf8 "source.version > target.version";
  when_not_matched = pos 0;
  when_not_matched_by_source = pos 1;
  when_not_matched_by_source_expr = null;
}

abbrev resolved : ResolvedParams
resolved = record {
  when_matched = WhenMatched.update_if "source.version > target.version";
  when_not_matched = MergeWhenNotMatched.insert_all;
  when_not_matched_by_source = ResolvedWhenNotMatchedBySource.delete;
}

update_newer : resolve_params (some newer) ≡ ok resolved
unfolding resolve_params
update_newer = refl

resolve_params-Encodes_example :
    (resolve_params (some newer) ≡ ok resolved) ↔ Encodes newer resolved
resolve_params-Encodes_example = resolve_params-Encodes newer resolved
