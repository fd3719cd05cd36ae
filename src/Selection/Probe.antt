-- ===== src/Selection/Probe.antt =====
-- What an index would cost (`estimate_cost`), within the budget of one choice. What opening and
-- reading an index file gives is a parameter.
use lance_c.Prelude.{
  ℕ, ◌+◌, ◌-◌, ◌*◌, ◌/◌, String, text, text_eq, Option, none, some, Bool, false, ◌&&◌, List, [],
  ◌∷◌, map, ◌==◌, ltb, leb, if◌then◌else◌, min,
}
use lance_c.Expression.{Expr, query, and, or, not}
use lance_c.Scanner.Limits.{usize_mod, checked_mul}
use lance_c.Selection.{
  Values, SargableQuery, LookupBatch, max_lookup_pages, estimate_pages, checked_add, ◌>>=◌,
}

abbrev pub max_lookup_bytes : ℕ
max_lookup_bytes = 8388608

abbrev pub default_btree_batch_size : ℕ
default_btree_batch_size = 4096

pub record ProbeBudget : Type 0 where
  pub serialized_bytes : ℕ
  pub decoded_bytes : ℕ

abbrev pub full_budget : ProbeBudget
full_budget = record { serialized_bytes = max_lookup_bytes; decoded_bytes = max_lookup_bytes }

abbrev pub lower : ℕ → ℕ
lower c = if leb 65 c && leb c 90 then c + 32 else c

-- `eq_ignore_ascii_case`
abbrev pub same_word : String → String → Bool
same_word s t = text_eq (map lower (text s)) (map lower (text t))

unfoldable pub is_btree_expression : {Q : Type 0} → Expr Q → Bool
is_btree_expression (query search) = same_word search.index_type "btree"
is_btree_expression (and a b) = is_btree_expression a && is_btree_expression b
is_btree_expression (or a b) = is_btree_expression a && is_btree_expression b
is_btree_expression (not a) = false

-- Arrow's `DataType`: the variants the source matches on, and the `primitive_width` of any other.
-- The width of a binary is an `i32`, `none` if negative.
pub data DataType : Type 0 where
  null_type boolean : DataType
  fixed_size_binary : Option ℕ → DataType
  other_type : Option ℕ → DataType

abbrev pub fixed_width : DataType → Option ℕ
fixed_width null_type = some 0
fixed_width boolean = some 1
fixed_width (fixed_size_binary width) = width
fixed_width (other_type primitive_width) = primitive_width

-- one step of the fold over the fields
abbrev pub add_field : ℕ → ℕ → DataType → Option ℕ
add_field rows bytes field = do
  width ← fixed_width field
  values ← checked_mul rows width
  sum ← checked_add bytes values
  valid ← checked_add sum ((rows + 7) / 8)
  checked_add valid 1024

abbrev pub fold_fields : ℕ → List DataType → ℕ → Option ℕ
fold_fields rows [] bytes = some bytes
fold_fields rows (field ∷ fields) bytes = do
  next ← add_field rows bytes field
  fold_fields rows fields next

unfoldable pub decoded_lookup_bytes : List DataType → ℕ → Option ℕ
unfolding checked_mul
decoded_lookup_bytes fields rows = fold_fields rows fields 0

-- `u64::saturating_mul`
abbrev pub saturating_mul : ℕ → ℕ → ℕ
saturating_mul a b = min (a * b) (usize_mod - 1)

module _ (v : Values) where
  pub record Lookup : Type 0 where
    pub batch : LookupBatch v
    pub rows_per_page : ℕ
    pub decoded_bytes : ℕ

  -- An opened index file: its rows, the types of its fields, the `batch_size` of its metadata
  -- (`some none` if it does not parse), and what reading all rows gives.
  pub record IndexFile : Type 0 where
    pub num_rows : ℕ
    pub fields : List DataType
    pub batch_size : Option (Option ℕ)
    pub rows : Option (LookupBatch v)

  -- `IndexMetadata`, with what the manifest and the schema say of it; `column` is the top-level field
  -- of its key, `key` the type of its key, `file_size` the size of the lookup file.
  pub record Candidate : Type 0 where
    pub uuid : ℕ
    pub name : String
    pub column : Option String
    pub coverage : Option (ℕ → Bool)
    pub key : Option DataType
    pub file_size : Option ℕ
    pub cached : Option Lookup
    pub file : Option IndexFile

  abbrev pub Expression : Type 0
  Expression = Expr (Option (SargableQuery v.Value))

  abbrev pub batch_size_of : Option (Option ℕ) → Option ℕ
  batch_size_of none = some default_btree_batch_size
  batch_size_of (some parsed) = parsed

  abbrev pub open_file : ℕ → IndexFile → Option Lookup
  open_file available f = if ltb max_lookup_pages f.num_rows then none else (do
    decoded_bytes ← decoded_lookup_bytes f.fields f.num_rows
    let size = batch_size_of f.batch_size
    let rows = f.rows
    if ltb available decoded_bytes then none else (do
      rows_per_page ← size
      if rows_per_page == 0 then none else (do
        batch ← rows
        some (record {
          batch = batch;
          rows_per_page = rows_per_page;
          decoded_bytes = decoded_bytes;
        }))))

  -- the lookup, from the session's cache or else from the file
  abbrev pub open_lookup : ℕ → Candidate → Option Lookup
  open_lookup available c = elim (c.cached) [
    | some l ↦ some l
    | none ↦ do f ← c.file; open_file available f
  ]

  -- The cost in rows and in pages, after the size of the file was taken off the budget.
  abbrev pub cost_of : Expression → ProbeBudget → Option Lookup → Option (ℕ × ℕ) × ProbeBudget
  cost_of e budget none = (none, budget)
  cost_of e budget (some l) = if ltb budget.decoded_bytes l.decoded_bytes then (none, budget) else (
    (do pages ← estimate_pages v l.batch e; some (saturating_mul l.rows_per_page pages, pages)),
    record budget { decoded_bytes = budget.decoded_bytes - l.decoded_bytes },
  )

  abbrev pub cost_within :
      Candidate → Expression → ProbeBudget → Option ℕ → Option (ℕ × ℕ) × ProbeBudget
  cost_within c e budget none = (none, budget)
  cost_within c e budget (some size) =
      if ltb budget.serialized_bytes size
      then (none, budget)
      else let left = record budget { serialized_bytes = budget.serialized_bytes - size } in
        cost_of e left (open_lookup left.decoded_bytes c)

  abbrev pub key_width : Option DataType → Option ℕ
  key_width none = none
  key_width (some t) = fixed_width t

  abbrev pub cost_of_keyed :
      Candidate → Expression → ProbeBudget → Option ℕ → Option (ℕ × ℕ) × ProbeBudget
  cost_of_keyed c e budget none = (none, budget)
  cost_of_keyed c e budget (some width) = cost_within c e budget c.file_size

  unfoldable pub estimate_cost : Candidate → Expression → ProbeBudget → Option (ℕ × ℕ) × ProbeBudget
  unfolding is_btree_expression decoded_lookup_bytes estimate_pages
  estimate_cost c e budget =
      if is_btree_expression e then cost_of_keyed c e budget (key_width c.key) else (none, budget)
