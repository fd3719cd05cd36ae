-- ===== src/Helpers.antt =====
-- helpers.rs: what the calls make of C strings and of arrays of them.
mod Options
use lance_c.Prelude.{
  String, Option, none, some, Bool, true, false, List, [], ◌∷◌, Result, ok, err, ◌>>=◌,
  if◌then◌else◌,
}
use text.Mathlib.Text.{◌==◌ as str_eq}
use lance_c.Ffi.LastError.{LanceError}
use lance_c.Scanner.Config.{invalid}

-- What a `char *` points to: nothing, UTF-8, or other bytes.
pub data CString : Type 0 where
  null : CString
  utf8 : String → CString
  bytes : CString

abbrev pub is_null : CString → Bool
is_null null = true
is_null _ = false

unfoldable pub parse_c_string : CString → Result LanceError (Option String)
parse_c_string null = ok none
parse_c_string (utf8 s) = ok (some s)
parse_c_string bytes = err (invalid "invalid utf-8 sequence")

-- The argument of a call that must be there and not be empty.
abbrev pub non_empty : Option String → String → Result LanceError String
non_empty none message = err (invalid message)
non_empty (some s) message = if str_eq s "" then err (invalid message) else ok s

unfoldable pub required_string : CString → String → Result LanceError String
unfolding parse_c_string
required_string s message = do parsed ← parse_c_string s; non_empty parsed message

-- The entries of an array up to its NULL sentinel; the end of the list is a NULL too.
abbrev pub parse_entries : List CString → Result LanceError (List String)
unfolding parse_c_string
parse_entries [] = ok []
parse_entries (null ∷ rest) = ok []
parse_entries (utf8 s ∷ rest) = do parsed ← parse_entries rest; ok (s ∷ parsed)
parse_entries (bytes ∷ rest) = err (invalid "invalid utf-8 sequence")

unfoldable pub parse_c_string_array :
    Option (List CString) → Result LanceError (Option (List String))
parse_c_string_array none = ok none
parse_c_string_array (some entries) = do parsed ← parse_entries entries; ok (some parsed)

-- `HashMap<String, A>` as an association list with one entry for each key
abbrev pub Map : Type 0 → Type 0
Map A = List (String × A)

module _ {A : Type 0} where
  abbrev pub insert : String → A → Map A → Map A
  insert key value [] = (key, value) ∷ []
  insert key value ((k, v) ∷ m) =
      if str_eq k key then (k, value) ∷ m else (k, v) ∷ insert key value m

  abbrev pub lookup : String → Map A → Option A
  lookup key [] = none
  lookup key ((k, v) ∷ m) = if str_eq k key then some v else lookup key m

abbrev pub parse_pairs : List CString → Map String → Result LanceError (Map String)
parse_pairs [] map = ok map
parse_pairs (null ∷ rest) map = ok map
parse_pairs (key ∷ []) map =
    err (invalid "storage options must be key-value pairs; odd number of entries")
parse_pairs (key ∷ null ∷ rest) map =
    err (invalid "storage options must be key-value pairs; odd number of entries")
parse_pairs (utf8 key ∷ utf8 value ∷ rest) map = parse_pairs rest (insert key value map)
parse_pairs (key ∷ value ∷ rest) map = err (invalid "invalid utf-8 sequence")

unfoldable pub parse_storage_options : Option (List CString) → Result LanceError (Map String)
parse_storage_options none = ok []
parse_storage_options (some entries) = parse_pairs entries []
