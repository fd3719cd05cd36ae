-- ===== src/Segment/Schema.antt =====
-- `validate_model_schema`: a foreign Arrow schema is walked before arrow-rs reads it.
pub mod Ends
pub mod Readable
pub mod Sound
use lance_c.Prelude.{
  ℕ, zero, suc, ◌+◌, ◌-◌, ◌/◌, ◌^◌, ℤ, pos, negsuc, natural, Option, none, some, Bool, true, false,
  not, List, [], ◌∷◌, any, Result, ok, err, ◌>>=◌, ◌>>◌, guard, ok_or, ◌≡◌, ◌==◌, ltb, ◌&&◌, ◌||◌,
  if◌then◌else◌,
}
use lance_c.Ffi.LastError.{LanceError}
use lance_c.Scanner.Config.{invalid}
use lance_c.Helpers.{is_null, CString, null, bytes}

-- `FFI_ArrowSchema` behind a pointer that is not NULL; pointers are addresses, and 0 is NULL.
pub record Node : Type 0 where
  pub released : Bool
  pub format : CString
  pub name : CString
  pub n_children : ℤ
  pub children : Option (ℕ → ℕ)
  pub dictionary : ℕ

abbrev pub Heap : Type 0
Heap = ℕ → Node

abbrev pub max_depth : ℕ
max_depth = 64

-- `isize::MAX as usize / size_of::<*mut FFI_ArrowSchema>()`
abbrev pub max_pointers : ℕ
max_pointers = (2 ^ 63 - 1) / 8

abbrev pub is_bytes : CString → Bool
is_bytes bytes = true
is_bytes _ = false

abbrev pub seen : ℕ → List ℕ → Bool
seen p visited = any (λ q. p == q) visited

abbrev pub child_array : ℕ → Option (ℕ → ℕ) → Result LanceError (ℕ → ℕ)
child_array zero children = ok (λ _. 0)
child_array (suc count) children =
    ok_or children (invalid "children is NULL while n_children is positive")

-- The tests on one node, up to its children: how many there are, and where.
unfoldable pub check_node : Node → Result LanceError (ℕ × (ℕ → ℕ))
check_node v = do
  guard (not (v.released || is_null v.format)) (invalid "is uninitialized or already released")
  guard (not (is_bytes v.format)) (invalid "format string is not valid UTF-8")
  guard (not (is_bytes v.name)) (invalid "name string is not valid UTF-8")
  count ← ok_or (natural v.n_children) (invalid "n_children must be non-negative")
  guard (not (ltb max_pointers count))
      (invalid "n_children exceeds the addressable pointer slice length")
  array ← child_array count v.children
  ok (count, array)

-- What a walk leaves behind: the addresses it has visited, or the error. `none` is no fuel left.
abbrev pub Walk : Type 0
Walk = Option (Result LanceError (List ℕ))

abbrev pub after : Walk → (List ℕ → Walk) → Walk
after none k = none
after (some (err e)) k = some (err e)
after (some (ok visited)) k = k visited

-- `for index in 0..child_count`, from `index` on with `count` to go
abbrev pub visit_children : (ℕ → List ℕ → Walk) → (ℕ → ℕ) → ℕ → ℕ → List ℕ → Walk
visit_children visit array zero index visited = some (ok visited)
visit_children visit array (suc count) index visited =
    after (visit (array index) visited) (visit_children visit array count (suc index))

abbrev pub visit_dictionary : (ℕ → List ℕ → Walk) → ℕ → List ℕ → Walk
visit_dictionary visit dictionary visited = elim (dictionary == 0) [
  | true ↦ some (ok visited)
  | false ↦ visit dictionary visited
]

abbrev pub visit_node : (ℕ → List ℕ → Walk) → Node → Result LanceError (ℕ × (ℕ → ℕ)) → List ℕ → Walk
visit_node visit v (err e) visited = some (err e)
visit_node visit v (ok (count, array)) visited =
    after (visit_children visit array count 0 visited) (visit_dictionary visit v.dictionary)

-- the tests on the pointer, before the node is read
abbrev pub check_pointer : ℕ → ℕ → List ℕ → Result LanceError (Unit {0})
check_pointer depth p visited = do
  guard (not (p == 0)) (invalid "must not be NULL")
  guard (not (ltb max_depth depth)) (invalid "nesting depth exceeds the supported maximum of 64")
  guard (not (seen p visited)) (invalid "contains a schema pointer cycle")

abbrev pub enter_node :
    (ℕ → List ℕ → Walk) → Heap → Result LanceError (Unit {0}) → ℕ → List ℕ → Walk
enter_node visit heap (err e) p visited = some (err e)
enter_node visit heap (ok u) p visited =
    visit_node visit (heap p) (check_node (heap p)) (p ∷ visited)

-- `preflight` of the node at `p`, at a nesting depth
unfoldable pub preflight : ℕ → Heap → ℕ → ℕ → List ℕ → Walk
preflight zero heap depth p visited = none
preflight (suc fuel) heap depth p visited =
    enter_node (preflight fuel heap (suc depth)) heap (check_pointer depth p visited) p visited

-- Depth 65 is refused, so the calls are never more than 66 deep.
unfoldable pub validate_model_schema : Heap → ℕ → Walk
unfolding preflight
validate_model_schema heap schema = preflight 66 heap 0 schema []
