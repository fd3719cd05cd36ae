-- ===== src/Segment/Gate.antt =====
-- `ProgressCallbackGate`: worker tasks that report progress, and the retirement of their callback.
-- Each event is one atomic access of the gate, or the return of a callback.
pub mod Retire
pub mod Drain
pub mod Progress
use lance_c.Prelude.{
  ℕ, ◌+◌, ◌-◌, ◌%◌, Option, none, some, Bool, true, false, update, ◌≡◌, ◌==◌, ltb, if◌then◌else◌,
}
use lance_c.Scanner.Limits.{usize_mod}

-- A worker between reports, past its `fetch_add`, in the C callback, before `exit`, or refused and
-- before its `fetch_sub`.
pub data Phase : Type 0 where
  idle : Phase
  counted : Phase
  inside : Phase
  leaving : Phase
  refused : Phase

-- The call that owns the gate: before `retire`, in its loop, and after it.
pub data Owner : Type 0 where
  building : Owner
  draining : Owner
  returned : Owner

pub record Gate : Type 0 where
  pub in_flight : ℕ
  pub retired : Bool
  pub worker : ℕ → Phase
  pub owner : Owner

abbrev pub open_gate : Gate
open_gate = record { in_flight = 0; retired = false; worker = λ _. idle; owner = building }

pub data GateEvent : Type 0 where
  add : ℕ → GateEvent
  check : ℕ → GateEvent
  finish : ℕ → GateEvent
  sub : ℕ → GateEvent
  store : GateEvent
  load : GateEvent

-- `enter`: the increment comes first, then the test of `retired`.
abbrev pub add_from : Phase → Option Phase
add_from idle = some counted
add_from _ = none

abbrev pub check_from : Bool → Phase → Option Phase
check_from true counted = some refused
check_from false counted = some inside
check_from _ _ = none

abbrev pub finish_from : Phase → Option Phase
finish_from inside = some leaving
finish_from _ = none

-- `exit`, or the decrement of an `enter` that backs out
abbrev pub sub_from : Phase → Option Phase
sub_from leaving = some idle
sub_from refused = some idle
sub_from _ = none

abbrev pub moved : Gate → ℕ → ℕ → Option Phase → Option Gate
moved s i in_flight none = none
moved s i in_flight (some p) =
    some (record s { in_flight = in_flight; worker = update s.worker i p })

abbrev pub retire_store : Gate → Owner → Option Gate
retire_store s building = some (record s { retired = true; owner = draining })
retire_store s _ = none

abbrev pub retire_load : Gate → Owner → Option Gate
retire_load s draining = if s.in_flight == 0 then some (record s { owner = returned }) else some s
retire_load s _ = none

-- One event with `n` workers; `fetch_add` and `fetch_sub` wrap around.
unfoldable pub gate_step : ℕ → GateEvent → Gate → Option Gate
gate_step n (add i) s =
    if ltb i n then moved s i ((s.in_flight + 1) % usize_mod) (add_from (s.worker i)) else none
gate_step n (check i) s =
    if ltb i n then moved s i s.in_flight (check_from s.retired (s.worker i)) else none
gate_step n (finish i) s =
    if ltb i n then moved s i s.in_flight (finish_from (s.worker i)) else none
gate_step n (sub i) s =
    if ltb i n
    then moved s i ((s.in_flight + (usize_mod - 1)) % usize_mod) (sub_from (s.worker i))
    else none
gate_step n store s = retire_store s s.owner
gate_step n load s = retire_load s s.owner

pub data Reach (n : ℕ) (s : Gate) : Gate → Type 0 where
  here : Reach n s s
  next : {t u : Gate} → Reach n s t → (e : GateEvent) → gate_step n e t ≡ some u → Reach n s u
