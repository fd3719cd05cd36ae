-- ===== src/Merge/Params.antt =====
-- The parameters that `resolve_params` accepts are the encodings of its results.
use text.Mathlib.Text.{◌==◌ as str_eq}
use lance_c.Prelude.{
  ℤ, pos, negsuc, ℕ, String, Option, none, some, Bool, true, false, Result, ok, err, ok_of_bind,
  ok_inj, ◌≡◌, refl, ap, ◌∙◌, subst, arith, ◌↔◌, if◌then◌else◌,
}
use lance_c.Ffi.LastError.{LanceError}
use lance_c.Helpers.{CString, null, utf8, bytes}
use lance_c.Merge.{
  MergeWhenMatched, MergeWhenNotMatched, MergeWhenNotMatchedBySource, MergeInsertParams,
  WhenMatched, ResolvedWhenNotMatchedBySource, ResolvedParams, when_matched_from_raw,
  when_not_matched_from_raw, by_source_from_raw, read_optional_expr, resolve_when_matched,
  resolve_by_source, resolve_params,
}

abbrev pub matched_code : WhenMatched → ℕ
matched_code WhenMatched.do_nothing = 0
matched_code WhenMatched.update_all = 1
matched_code (WhenMatched.update_if expr) = 2
matched_code WhenMatched.fail = 3
matched_code WhenMatched.delete = 4

abbrev pub matched_expr : WhenMatched → CString
matched_expr (WhenMatched.update_if expr) = utf8 expr
matched_expr _ = null

abbrev pub not_matched_code : MergeWhenNotMatched → ℕ
not_matched_code MergeWhenNotMatched.insert_all = 0
not_matched_code MergeWhenNotMatched.do_nothing = 1

abbrev pub by_source_code : ResolvedWhenNotMatchedBySource → ℕ
by_source_code ResolvedWhenNotMatchedBySource.keep = 0
by_source_code ResolvedWhenNotMatchedBySource.delete = 1
by_source_code (ResolvedWhenNotMatchedBySource.delete_if expr) = 2

abbrev pub by_source_expr : ResolvedWhenNotMatchedBySource → CString
by_source_expr (ResolvedWhenNotMatchedBySource.delete_if expr) = utf8 expr
by_source_expr _ = null

abbrev pub IsFilled : CString → Type 0
IsFilled (utf8 s) = str_eq s "" ≡ false
IsFilled _ = Unit

-- the codes of what was resolved, and NULL for an expression that is not part of it
pub record Encodes (p : MergeInsertParams) (r : ResolvedParams) : Type 0 where
  pub matched : p.when_matched ≡ pos (matched_code r.when_matched)
  pub matched_expression : p.when_matched_expr ≡ matched_expr r.when_matched
  pub not_matched : p.when_not_matched ≡ pos (not_matched_code r.when_not_matched)
  pub by_source : p.when_not_matched_by_source ≡ pos (by_source_code r.when_not_matched_by_source)
  pub by_source_expression :
      p.when_not_matched_by_source_expr ≡ by_source_expr r.when_not_matched_by_source
  pub matched_filled : IsFilled (matched_expr r.when_matched)
  pub by_source_filled : IsFilled (by_source_expr r.when_not_matched_by_source)

c_string : Option String → CString
c_string none = null
c_string (some s) = utf8 s

matched_kind_code : MergeWhenMatched → ℕ
matched_kind_code MergeWhenMatched.do_nothing = 0
matched_kind_code MergeWhenMatched.update_all = 1
matched_kind_code MergeWhenMatched.update_if = 2
matched_kind_code MergeWhenMatched.fail = 3
matched_kind_code MergeWhenMatched.delete = 4

by_source_kind_code : MergeWhenNotMatchedBySource → ℕ
by_source_kind_code MergeWhenNotMatchedBySource.keep = 0
by_source_kind_code MergeWhenNotMatchedBySource.delete = 1
by_source_kind_code MergeWhenNotMatchedBySource.delete_if = 2

code_of_matched :
    (z : ℤ) (k : MergeWhenMatched) → when_matched_from_raw z ≡ ok k → z ≡ pos (matched_kind_code k)
unfolding when_matched_from_raw matched_kind_code
code_of_matched (negsuc n) k h = cc
code_of_matched (pos n) k h = ground (arith, h)

code_of_not_matched :
    (z : ℤ) (k : MergeWhenNotMatched)
    → when_not_matched_from_raw z ≡ ok k
    → z ≡ pos (not_matched_code k)
unfolding when_not_matched_from_raw
code_of_not_matched (negsuc n) k h = cc
code_of_not_matched (pos n) k h = ground (arith, h)

code_of_by_source :
    (z : ℤ) (k : MergeWhenNotMatchedBySource)
    → by_source_from_raw z ≡ ok k
    → z ≡ pos (by_source_kind_code k)
unfolding by_source_from_raw by_source_kind_code
code_of_by_source (negsuc n) k h = cc
code_of_by_source (pos n) k h = ground (arith, h)

past_if :
    {A : Type 0} (b : Bool) (e : LanceError) (a : A) {v : A}
    → Path (Result LanceError A) (if b then err e else ok a) (ok v)
    → (b ≡ false) × (a ≡ v)
past_if true e a h = cc
past_if false e a h = (refl, ok_inj h)

expr_read :
    (c : CString) (o : Option String)
    → read_optional_expr c ≡ ok o
    → (c ≡ c_string o) × IsFilled (c_string o)
unfolding read_optional_expr c_string
expr_read null o h = (ap c_string (ok_inj h), subst (λ x. IsFilled (c_string x)) (ok_inj h) tt)
expr_read (utf8 s) o h =
    let (filled, same) = past_if (str_eq s "") _ (some s) h in
    (ap c_string same, subst (λ x. IsFilled (c_string x)) same filled)
expr_read bytes o h = cc

matched_parts :
    (k : MergeWhenMatched) (o : Option String) (w : WhenMatched)
    → resolve_when_matched k o ≡ ok w
    → (matched_kind_code k ≡ matched_code w) × (c_string o ≡ matched_expr w)
unfolding resolve_when_matched matched_kind_code c_string
matched_parts MergeWhenMatched.do_nothing none w h =
    (ap matched_code (ok_inj h), ap matched_expr (ok_inj h))
matched_parts MergeWhenMatched.do_nothing (some s) w h = cc
matched_parts MergeWhenMatched.update_all none w h =
    (ap matched_code (ok_inj h), ap matched_expr (ok_inj h))
matched_parts MergeWhenMatched.update_all (some s) w h = cc
matched_parts MergeWhenMatched.update_if none w h = cc
matched_parts MergeWhenMatched.update_if (some s) w h =
    (ap matched_code (ok_inj h), ap matched_expr (ok_inj h))
matched_parts MergeWhenMatched.fail none w h =
    (ap matched_code (ok_inj h), ap matched_expr (ok_inj h))
matched_parts MergeWhenMatched.fail (some s) w h = cc
matched_parts MergeWhenMatched.delete none w h =
    (ap matched_code (ok_inj h), ap matched_expr (ok_inj h))
matched_parts MergeWhenMatched.delete (some s) w h = cc

by_source_parts :
    (k : MergeWhenNotMatchedBySource) (o : Option String) (w : ResolvedWhenNotMatchedBySource)
    → resolve_by_source k o ≡ ok w
    → (by_source_kind_code k ≡ by_source_code w) × (c_string o ≡ by_source_expr w)
unfolding resolve_by_source by_source_kind_code c_string
by_source_parts MergeWhenNotMatchedBySource.keep none w h =
    (ap by_source_code (ok_inj h), ap by_source_expr (ok_inj h))
by_source_parts MergeWhenNotMatchedBySource.keep (some s) w h = cc
by_source_parts MergeWhenNotMatchedBySource.delete none w h =
    (ap by_source_code (ok_inj h), ap by_source_expr (ok_inj h))
by_source_parts MergeWhenNotMatchedBySource.delete (some s) w h = cc
by_source_parts MergeWhenNotMatchedBySource.delete_if none w h = cc
by_source_parts MergeWhenNotMatchedBySource.delete_if (some s) w h =
    (ap by_source_code (ok_inj h), ap by_source_expr (ok_inj h))

accepted-Encodes :
    (p : MergeInsertParams) (r : ResolvedParams) → resolve_params (some p) ≡ ok r → Encodes p r
unfolding resolve_params
accepted-Encodes p r h =
    let (k, f, h) = ok_of_bind (when_matched_from_raw p.when_matched) _ h in
    let (n, g, h) = ok_of_bind (when_not_matched_from_raw p.when_not_matched) _ h in
    let (b, e, h) = ok_of_bind (by_source_from_raw p.when_not_matched_by_source) _ h in
    let (x, c, h) = ok_of_bind (read_optional_expr p.when_matched_expr) _ h in
    let (y, d, h) = ok_of_bind (read_optional_expr p.when_not_matched_by_source_expr) _ h in
    let (w, i, h) = ok_of_bind (resolve_when_matched k x) _ h in
    let (v, j, h) = ok_of_bind (resolve_by_source b y) _ h in
    let wp = matched_parts k x w i in
    let vp = by_source_parts b y v j in
    let xr = expr_read p.when_matched_expr x c in
    let yr = expr_read p.when_not_matched_by_source_expr y d in
    subst (Encodes p) (ok_inj h) (record {
      matched = code_of_matched p.when_matched k f ∙ ap pos wp.0;
      matched_expression = xr.0 ∙ wp.1;
      not_matched = code_of_not_matched p.when_not_matched n g;
      by_source = code_of_by_source p.when_not_matched_by_source b e ∙ ap pos vp.0;
      by_source_expression = yr.0 ∙ vp.1;
      matched_filled = subst IsFilled wp.1 xr.1;
      by_source_filled = subst IsFilled vp.1 yr.1;
    })

read_filled : (s : String) → str_eq s "" ≡ false → read_optional_expr (utf8 s) ≡ ok (some s)
unfolding read_optional_expr
read_filled s h = rw h refl

-- the steps on a mode and its expression that lead to what was encoded
matched_back :
    (w : WhenMatched)
    → IsFilled (matched_expr w)
    → (k : MergeWhenMatched) × (o : Option String) × (when_matched_from_raw (pos (matched_code w))
        ≡ ok k)
      × (read_optional_expr (matched_expr w) ≡ ok o)
      × (resolve_when_matched k o ≡ ok w)
unfolding when_matched_from_raw resolve_when_matched read_optional_expr
matched_back WhenMatched.do_nothing f = (MergeWhenMatched.do_nothing, none, refl, refl, refl)
matched_back WhenMatched.update_all f = (MergeWhenMatched.update_all, none, refl, refl, refl)
matched_back (WhenMatched.update_if s) f =
    (MergeWhenMatched.update_if, some s, refl, read_filled s f, refl)
matched_back WhenMatched.fail f = (MergeWhenMatched.fail, none, refl, refl, refl)
matched_back WhenMatched.delete f = (MergeWhenMatched.delete, none, refl, refl, refl)

not_matched_back :
    (k : MergeWhenNotMatched) → when_not_matched_from_raw (pos (not_matched_code k)) ≡ ok k
unfolding when_not_matched_from_raw
not_matched_back MergeWhenNotMatched.insert_all = refl
not_matched_back MergeWhenNotMatched.do_nothing = refl

by_source_back :
    (w : ResolvedWhenNotMatchedBySource)
    → IsFilled (by_source_expr w)
    → (k : MergeWhenNotMatchedBySource) × (o : Option String) × (by_source_from_raw
          (pos (by_source_code w))
        ≡ ok k)
      × (read_optional_expr (by_source_expr w) ≡ ok o)
      × (resolve_by_source k o ≡ ok w)
unfolding by_source_from_raw resolve_by_source read_optional_expr
by_source_back ResolvedWhenNotMatchedBySource.keep f =
    (MergeWhenNotMatchedBySource.keep, none, refl, refl, refl)
by_source_back ResolvedWhenNotMatchedBySource.delete f =
    (MergeWhenNotMatchedBySource.delete, none, refl, refl, refl)
by_source_back (ResolvedWhenNotMatchedBySource.delete_if s) f =
    (MergeWhenNotMatchedBySource.delete_if, some s, refl, read_filled s f, refl)

encoded-Accepted :
    (p : MergeInsertParams) (r : ResolvedParams) → Encodes p r → resolve_params (some p) ≡ ok r
unfolding resolve_params
encoded-Accepted p r h =
    let (k, x, f, c, i) = matched_back r.when_matched h.matched_filled in
    let (b, y, e, d, j) = by_source_back r.when_not_matched_by_source h.by_source_filled in
    rw (h.matched, h.matched_expression, h.not_matched, h.by_source, h.by_source_expression)
      (rw (f, not_matched_back r.when_not_matched, e, c, d) (rw i (rw j refl)))

-- The parameters of a merge are accepted, with a given result, exactly when they encode it: the codes
-- are those of its modes, an expression is there just where a mode has one, and it is not empty.
pub resolve_params-Encodes :
    (p : MergeInsertParams) (r : ResolvedParams) → (resolve_params (some p) ≡ ok r) ↔ Encodes p r
resolve_params-Encodes p r = (accepted-Encodes p r, encoded-Accepted p r)
