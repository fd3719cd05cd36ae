-- ===== src/Segment/Examples.antt =====
-- The theorems on segment builds at concrete workers, schemas, arrays and options.
mod Training
mod Handles
use lance_c.Prelude.{
  ℕ, ◌≤◌, pos, text, has_nul, some, none, Bool, true, false, List, [], ◌∷◌, ◌++◌, length, is_some,
  if◌then◌else◌, ok, err, ◌≡◌, ◌≢◌, ◌↔◌, ◌⊎◌, inl, inr, Option, refl, arith, update,
}
use lance_c.Scanner.Setters.{null, buffer}
use lance_c.Helpers.{utf8}
use lance_c.Scanner.Limits.{checked_mul}
use lance_c.Segment.Gate.{
  Gate, Phase, open_gate, idle, inside, refused, draining, returned, GateEvent, add, check, finish,
  sub, store, load, gate_step, Reach, here, next,
}
use lance_c.Segment.Gate.Retire.{is_inside, retired_quiet}
use lance_c.Segment.Gate.Drain.{Ending, retire_returns}
use lance_c.Segment.Gate.Progress.{Report, started, report, said, report_lem}
use lance_c.Segment.Schema.{Node, Heap, check_node, preflight, validate_model_schema}
use lance_c.Segment.Schema.Ends.{validate_model_schema_ends}
use lance_c.Segment.Schema.Readable.{Readable}
use lance_c.Segment.Schema.Sound.{Below, here as below_here, child, schema-Readable}
use lance_c.Segment.Options.{parse_fragment_ids, parse_fragments}
use lance_c.Segment.Options.Fragments.{Usable, parse_fragment_ids_lem}
use lance_c.Segment.Model.{
  ModelType, fixed_size_list, ArrowArray, ModelArray, validate_common, list_size_of, check_parent,
  check_child, check_model,
}
use lance_c.Segment.Model.Bounds.{Covered, check_model-Covered}

-- one worker, which reports before the retirement and again after it
abbrev retired_gate : Gate
retired_gate = record {
  in_flight = 0;
  retired = true;
  worker =
      update (update (update (update (λ _. idle) 0 Phase.counted) 0 inside) 0 Phase.leaving) 0 idle;
  owner = returned;
}

reported : Reach 1 open_gate retired_gate
unfolding gate_step
reported =
    next
      (next (next (next (next (next here (add 0) refl) (check 0) refl) store refl) (finish 0) refl)
        (sub 0) refl)
      load refl

late_report : Reach 1 retired_gate (record retired_gate {
  in_flight = 1;
  worker = update (update retired_gate.worker 0 Phase.counted) 0 refused;
})
unfolding gate_step
late_report = next (next here (add 0) refl) (check 0) refl

retired_quiet_example :
    is_inside (update (update retired_gate.worker 0 Phase.counted) 0 refused 0) ≡ false
retired_quiet_example = retired_quiet (omega arith) reported refl late_report 0

abbrev draining_gate : Gate
draining_gate = record {
  in_flight = 1;
  retired = true;
  worker = update (update (λ _. idle) 0 Phase.counted) 0 inside;
  owner = draining;
}

in_callback : Reach 1 open_gate draining_gate
unfolding gate_step
in_callback = next (next (next here (add 0) refl) (check 0) refl) store refl

retire_returns_example : (t : Gate) × Ending 1 draining_gate t × (t.owner ≡ returned)
retire_returns_example = retire_returns (omega arith) in_callback refl

abbrev merge : Report
merge = started (text "merge") (some 3) (text "rows")

report_lem_example :
    (report true merge ≡ ok (if true then some (said merge) else none))
    × (has_nul (said merge).stage ≡ false)
    × (has_nul (said merge).unit ≡ false)
report_lem_example = report_lem true merge

-- a list at 1 whose child is at 2, and at every other address a node that is its own child
abbrev leaf : Node
leaf = record {
  released = false;
  format = utf8 "f";
  name = utf8 "item";
  n_children = pos 0;
  children = none;
  dictionary = 0;
}

abbrev loops : ℕ → Node
loops p = record leaf { n_children = pos 1; children = some (λ _. p) }

abbrev heap : Heap
heap =
    update (update loops 2 leaf) 1
      (record leaf { format = utf8 "+w:4"; n_children = pos 1; children = some (λ _. 2) })

validate_model_schema_ends_example : is_some (validate_model_schema heap 3) ≡ true
validate_model_schema_ends_example = validate_model_schema_ends heap 3

heap_passes : validate_model_schema heap 1 ≡ some (ok (2 ∷ 1 ∷ []))
unfolding validate_model_schema preflight check_node
heap_passes = refl

schema-Readable_example :
    (1 ≤ 64) × (◌≢◌ {A = ℕ} 2 0) × ((count : ℕ) × (array : ℕ → ℕ) × Readable (heap 2) count array)
schema-Readable_example =
    schema-Readable heap 1 heap_passes (child 1 (λ _. 2) 0 refl refl (omega arith) below_here)

abbrev fragments : List ℕ
fragments = 0 ∷ 1 ∷ 2 ∷ []

abbrev chosen : List ℕ
chosen = 2 ∷ 0 ∷ []

parse_fragment_ids_lem_example :
    (parse_fragment_ids fragments (buffer chosen) ≡ ok (some chosen)) ↔ (
      ((buffer chosen ≡ null 0) × (some chosen ≡ none))
      ⊎ ((ids : List ℕ) × (buffer chosen ≡ buffer ids)
          × (some chosen ≡ some ids)
          × Usable fragments ids))
parse_fragment_ids_lem_example = parse_fragment_ids_lem fragments (buffer chosen) (some chosen)

-- two lists of four numbers
abbrev numbers : ArrowArray
numbers = record {
  released = false;
  length = pos 8;
  offset = pos 0;
  null_count = pos 0;
  n_buffers = pos 2;
  n_children = pos 0;
  buffers = some (λ i. true);
  dictionary = false;
}

abbrev lists : ModelArray
lists = record {
  parent = record numbers { length = pos 2; n_buffers = pos 1; n_children = pos 1 };
  children = some (some numbers);
}

lists_pass : check_model (fixed_size_list true (pos 4)) lists ≡ ok tt
unfolding check_model list_size_of check_parent check_child validate_common checked_mul
lists_pass = refl

check_model-Covered_example : Covered (fixed_size_list true (pos 4)) lists
check_model-Covered_example = check_model-Covered (fixed_size_list true (pos 4)) lists lists_pass
