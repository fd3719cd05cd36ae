-- ===== src/Write/Parse.antt =====
-- What the calls that write read from the caller's arrays and strings, before they lock the dataset
-- (src/add_columns.rs, alter_columns.rs, drop_columns.rs, update.rs and merge_insert.rs).
use lance_c.Prelude.{
  ℤ, pos, negsuc, String, Option, none, some, Bool, true, false, not, ◌||◌, List, [], ◌∷◌, Result,
  ok, err, guard, ◌>>=◌, ◌>>◌, ◌==◌, if◌then◌else◌,
}
use text.Mathlib.Text.{◌==◌ as str_eq}
use lance_c.Ffi.Outcome.{Caught, done, panicked}
use lance_c.Ffi.LastError.{LanceError}
use lance_c.Helpers.{CString, is_null, parse_c_string, required_string}
use lance_c.Scanner.Config.{invalid}
use lance_c.Write.Lance.{ColumnAlteration, CSchema}

module _ {A B : Type 0} (parse : A → Result LanceError B) where
  -- a loop over an array, which ends at the first error
  abbrev pub parse_each : List A → Result LanceError (List B)
  parse_each [] = ok []
  parse_each (x ∷ xs) = do y ← parse x; ys ← parse_each xs; ok (y ∷ ys)

-- `parse_required_field` of add_columns.rs
unfoldable pub parse_required_field : CString → Result LanceError String
unfolding required_string
parse_required_field c = required_string c "columns must not be NULL or empty"

-- one `LanceSqlColumn`
unfoldable pub parse_sql_column : CString × CString → Result LanceError (String × String)
unfolding parse_required_field
parse_sql_column (name, expression) = do
  n ← parse_required_field name
  e ← parse_required_field expression
  ok (n, e)

-- an entry of `columns` in drop_columns.rs
unfoldable pub parse_name : CString → Result LanceError String
unfolding required_string
parse_name c = required_string c "columns must not be NULL or empty"

-- an entry of `on_columns` in merge_insert.rs
unfoldable pub parse_key : CString → Result LanceError String
unfolding required_string
parse_key c = required_string c "on_columns must not be NULL or empty"

-- an entry of `columns` and of `values` in update.rs
unfoldable pub parse_update : CString × CString → Result LanceError (String × String)
unfolding required_string
parse_update (column, value) = do
  c ← required_string column "columns must not be NULL or empty"
  v ← required_string value "values must not be NULL or empty"
  ok (c, v)

-- a string that may be left out, but not be empty
abbrev pub filled : String → Option String → Result LanceError (Option String)
filled message none = ok none
filled message (some s) = if str_eq s "" then err (invalid message) else ok (some s)

-- the predicate of update.rs
unfoldable pub parse_predicate : CString → Result LanceError (Option String)
unfolding parse_c_string
parse_predicate c = do
  s ← parse_c_string c
  filled "predicate must not be empty (pass NULL to update all rows)" s

-- `LanceColumnNullableMode`
pub data NullableMode : Type 0 where
  unchanged is_true is_false : NullableMode

unfoldable pub nullable_mode_from_raw : ℤ → Result LanceError NullableMode
nullable_mode_from_raw (negsuc n) = err (invalid "invalid nullable_mode")
nullable_mode_from_raw (pos n) =
    if n == 0
    then ok unchanged
    else if n == 1
    then ok is_true
    else if n == 2
    then ok is_false
    else err (invalid "invalid nullable_mode")

abbrev pub nullable_of : NullableMode → Option Bool
nullable_of unchanged = none
nullable_of is_true = some true
nullable_of is_false = some false

-- `LanceColumnAlteration`
pub record CAlteration (T : Type 0) : Type 0 where
  pub path : CString
  pub rename : CString
  pub nullable_mode : ℤ
  pub data_type : Option (CSchema T)

abbrev pub is_some : {A : Type 0} → Option A → Bool
is_some none = false
is_some (some a) = true

-- `?` on what may panic too
abbrev pub and_then :
    {A B : Type 0}
    → Caught (Result LanceError A)
    → (A → Caught (Result LanceError B))
    → Caught (Result LanceError B)
and_then (done (ok a)) f = f a
and_then (done (err e)) f = done (err e)
and_then (panicked p) f = panicked p

module _ {T : Type 0} where
  abbrev pub converted : Caught (Option T) → Caught (Result LanceError (Option T))
  converted (done none) = done (err (invalid "data_type is not a valid Arrow type"))
  converted (done (some t)) = done (ok (some t))
  converted (panicked p) = panicked p

  -- the type of an alteration; the conversion may panic
  unfoldable pub parse_data_type : Option (CSchema T) → Caught (Result LanceError (Option T))
  parse_data_type none = done (ok none)
  parse_data_type (some schema) =
      if not schema.release || is_null schema.format
      then done (err (invalid "data_type is uninitialised or already released"))
      else converted schema.conversion

  -- the fields that are read before the type
  unfoldable pub parse_alteration_head :
      CAlteration T → Result LanceError (String × Option String × Option Bool)
  unfolding required_string parse_c_string nullable_mode_from_raw
  parse_alteration_head entry = do
    path ← required_string entry.path "path must not be NULL or empty"
    parsed ← parse_c_string entry.rename
    rename ← filled "rename must not be empty" parsed
    mode ← nullable_mode_from_raw entry.nullable_mode
    ok (path, rename, nullable_of mode)

  unfoldable pub alteration_of :
      String × Option String × Option Bool → Option T → Result LanceError (ColumnAlteration T)
  alteration_of (path, rename, nullable) data_type =
      guard (is_some rename || is_some nullable || is_some data_type)
        (invalid "the alteration is a no-op")
      >> ok (record { path = path; rename = rename; nullable = nullable; data_type = data_type })

  unfoldable pub parse_alteration : CAlteration T → Caught (Result LanceError (ColumnAlteration T))
  unfolding parse_alteration_head parse_data_type alteration_of
  parse_alteration entry = and_then (done (parse_alteration_head entry)) λ head.
      and_then (parse_data_type entry.data_type) λ data_type. done (alteration_of head data_type)

  -- the loop over the array of alterations
  abbrev pub parse_alterations :
      List (CAlteration T) → Caught (Result LanceError (List (ColumnAlteration T)))
  parse_alterations [] = done (ok [])
  parse_alterations (entry ∷ entries) =
      and_then (parse_alteration entry)
        λ alteration. and_then (parse_alterations entries) λ rest. done (ok (alteration ∷ rest))
