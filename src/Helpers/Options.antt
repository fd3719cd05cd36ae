-- ===== src/Helpers/Options.antt =====
-- What the storage options hold after they are parsed.
use lance_c.Prelude.{
  String, Option, none, some, true, List, [], ◌∷◌, ok, ◌≡◌, refl, ap, sym, ◌∙◌, arith,
  if◌then◌else◌, Bool-cases, inl, inr,
}
use text.Mathlib.Text.{◌==◌ as str_eq}
use text.Mathlib.TextEquality.{eq_iff}
use lance_c.Helpers.{CString, utf8, Map, insert, lookup, parse_pairs, parse_storage_options}

-- the array of a list of pairs
abbrev flatten : List (String × String) → List CString
flatten [] = []
flatten ((k, v) ∷ pairs) = utf8 k ∷ utf8 v ∷ flatten pairs

-- the last value that is given to a key, or else what the key has already
abbrev last_value : String → List (String × String) → Option String → Option String
last_value key [] before = before
last_value key ((k, v) ∷ pairs) before =
    last_value key pairs (if str_eq k key then some v else before)

both_eq : (s t u : String) → str_eq s u ≡ true → str_eq t u ≡ true → str_eq s t ≡ true
both_eq s t u h k = (eq_iff s t).1 ((eq_iff s u).0 h ∙ sym ((eq_iff t u).0 k))

same_eq : (s t u : String) → str_eq s t ≡ true → str_eq s u ≡ str_eq t u
same_eq s t u h = ap (λ x. str_eq x u) ((eq_iff s t).0 h)

pub lookup-insert :
    {A : Type 0} (key k : String) (v : A) (m : Map A)
    → lookup key (insert k v m) ≡ (if str_eq k key then some v else lookup key m)
lookup-insert key k v [] = refl
lookup-insert key k v ((l, w) ∷ m) = elim (Bool-cases (str_eq l k)) [
  | inl e ↦ ground (arith, e, same_eq l k key e)
  | inr e ↦ ground (arith, e, both_eq l k key, lookup-insert key k v m)
]

lookup-parse_pairs :
    (key : String) (pairs : List (String × String)) (m : Map String)
    → (map : Map String) × (parse_pairs (flatten pairs) m ≡ ok map)
      × (lookup key map ≡ last_value key pairs (lookup key m))
lookup-parse_pairs key [] m = (m, refl, refl)
lookup-parse_pairs key ((k, v) ∷ pairs) m =
    let (map, p, q) = lookup-parse_pairs key pairs (insert k v m) in
    (map, p, q ∙ ap (last_value key pairs) (lookup-insert key k v m))

-- An array of key and value strings is parsed, and each key then has the last value given to it, and
-- no value if none was given.
parse_storage_options_lem :
    (key : String) (pairs : List (String × String))
    → (map : Map String) × (parse_storage_options (some (flatten pairs)) ≡ ok map)
      × (lookup key map ≡ last_value key pairs none)
unfolding parse_storage_options
parse_storage_options_lem key pairs = lookup-parse_pairs key pairs []
