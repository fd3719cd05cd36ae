-- ===== src/Scanner/Iterate.antt =====
-- Running a scan: `lance_scanner_next`, `lance_scanner_poll_next` and
-- `lance_scanner_to_arrow_stream`. What builds and drives the stream is a parameter, `Engine`.
pub mod View
use lance_c.Prelude.{
  ℕ, zero, suc, ℤ, pos, negsuc, Text, text, ◌++◌, Option, none, some, Bool, true, false, Result, ok,
  err, if◌then◌else◌, is_some,
}
use lance_c.Ffi.Outcome.{
  Caught, done, panicked, Payload, Act, State, pure, lift, gets_world, put_world, catch_unwind,
  ◌>>=◌, ◌>>◌,
}
use lance_c.Ffi.LastError.{
  ErrorCode, LanceError, LastError, set_last_error, set_lance_error, clear_last_error,
  panic_payload_message,
}
use lance_c.Scanner.Config.{External, Scanner}
use lance_c.Scanner.Handle.{
  Handle, Memory, minus_one, poison, is_poisoned, set_poison, scanner_poison_check,
}

pub data Poll (B : Type 0) : Type 0 where
  ready : Option (Result LanceError B) → Poll B
  pending : Poll B

-- `open_stream` is `build_scanner` with `try_into_stream`, `advance` is `block_on(stream.next())`, `poll` is
-- `stream.poll_next`. Each may panic. `S` is a stream's state and `B` a batch. A stream that is
-- exported comes from `export`: `build_scanner`, `try_into_stream`, `GuardedReader::new` and
-- `FFI_ArrowArrayStream::new`.
pub record Engine (x : External) (S B : Type 0) : Type 0 where
  pub open_stream : Scanner x → Caught (Result LanceError S)
  pub advance : S → Caught (Option (Result LanceError B)) × S
  pub poll : S → Caught (Poll B) × S

pub data PollStatus : Type 0 where
  ready pending finished error : PollStatus

abbrev pub started : {x : External} → Scanner x → Scanner x
started s = record s { scan_started = true }

module _ {x : External} {S : Type 0} where
  abbrev pub start_handle : Option (Handle x S) → Option (Handle x S)
  start_handle none = none
  start_handle (some h) = some (record h { config = started h.config })

  abbrev pub with_stream : S → Option (Handle x S) → Option (Handle x S)
  with_stream st none = none
  with_stream st (some h) = some (record h { stream = some st })

abbrev pub Call : External → Type 0 → Type 0 → Type 0 → Type 0
Call x S B A = Act LastError (Memory x S B) A

abbrev pub write_to : {B : Type 0} → Option B → Option (Option B) → Option (Option B)
write_to b none = none
write_to b (some old) = some b

module _ {x : External} {S B : Type 0} where
  -- `*out = …`, where `out` is not NULL
  abbrev pub write_out : Option B → Call x S B (Unit {0})
  write_out b = put_world (λ m. record m { out = write_to b m.out })

  abbrev pub refuse : {A : Type 0} → ErrorCode → Text → A → Call x S B A
  refuse code message errval = do set_last_error code message; pure errval

  -- the arm for a caught panic that the three entry points share
  abbrev pub poisoned_by : {A : Type 0} → Payload → A → Call x S B A
  poisoned_by p errval = do
    put_world poison
    set_last_error ErrorCode.panic (text "panic in FFI call: " ++ panic_payload_message p)
    pure errval

  abbrev pub or_null : {A : Type 0} → A → Caught A → Call x S B A
  or_null errval (done a) = pure a
  or_null errval (panicked p) = do errval' ← poisoned_by p errval; write_out none; pure errval'

  abbrev pub fail_null : {A : Type 0} → LanceError → A → Call x S B A
  fail_null e errval = do set_lance_error e; write_out none; pure errval

  abbrev pub put_stream : S → Memory x S B → Memory x S B
  put_stream st m = record m { scanner = with_stream st m.scanner }

  abbrev pub keep_stream : Result LanceError S → Call x S B (Result LanceError S)
  keep_stream (err e) = pure (err e)
  keep_stream (ok st) = do put_world (put_stream st); pure (ok st)

  -- `materialize_stream`, whose `build_scanner` raises `scan_started` before all else
  unfoldable pub materialize_stream :
      (Scanner x → Caught (Result LanceError S)) → Handle x S → Call x S B (Result LanceError S)
  materialize_stream opens h = do
    put_world (λ m. record m { scanner = start_handle m.scanner })
    opened ← lift (opens (started h.config))
    keep_stream opened

  abbrev pub lazily :
      (Scanner x → Caught (Result LanceError S))
      → Handle x S
      → Option S
      → Call x S B (Result LanceError S)
  lazily opens h none = materialize_stream opens h
  lazily opens h (some st) = pure (ok st)

  -- one step of the stream, which changes it in place, also where it panics
  abbrev pub drive : {A : Type 0} → (S → Caught A × S) → S → Call x S B A
  drive step st s = let (r, st') = step st in (r, record s { world = put_stream st' s.world })

  abbrev pub report_item : Option (Result LanceError B) → Call x S B ℤ
  report_item (some (ok batch)) = do clear_last_error; write_out (some batch); pure (pos 0)
  report_item (some (err e)) = fail_null e minus_one
  report_item none = do clear_last_error; write_out none; pure (pos 1)

  abbrev pub report_poll : Poll B → Call x S B PollStatus
  report_poll (Poll.ready (some (ok batch))) = do
    clear_last_error
    write_out (some batch)
    pure PollStatus.ready
  report_poll (Poll.ready (some (err e))) = fail_null e PollStatus.error
  report_poll (Poll.ready none) = do clear_last_error; write_out none; pure PollStatus.finished
  report_poll Poll.pending = do clear_last_error; write_out none; pure PollStatus.pending

module _ {x : External} {S B : Type 0} (engine : Engine x S B) where
  abbrev pub next_step : Result LanceError S → Call x S B ℤ
  next_step (err e) = fail_null e minus_one
  next_step (ok st) = do item ← drive engine.advance st; report_item item

  -- `scanner_next_inner`
  unfoldable pub next_inner : Handle x S → Call x S B ℤ
  unfolding materialize_stream set_lance_error clear_last_error
  next_inner h = do opened ← lazily engine.open_stream h h.stream; next_step opened

  abbrev pub poll_step : Result LanceError S → Call x S B PollStatus
  poll_step (err e) = fail_null e PollStatus.error
  poll_step (ok st) = do item ← drive engine.poll st; report_poll item

  -- `scanner_poll_next_inner`
  unfoldable pub poll_next_inner : Handle x S → Call x S B PollStatus
  unfolding materialize_stream set_lance_error clear_last_error
  poll_next_inner h = do opened ← lazily engine.open_stream h h.stream; poll_step opened

  abbrev pub next_on : Option (Handle x S) → Bool → Call x S B ℤ
  next_on none has_out =
      refuse ErrorCode.invalid_argument (text "scanner must not be NULL") minus_one
  next_on (some h) has_out = scanner_poison_check minus_one (
      if has_out
      then (do outcome ← catch_unwind (next_inner h); or_null minus_one outcome)
      else refuse ErrorCode.invalid_argument (text "out must not be NULL") minus_one)

  -- `lance_scanner_next`
  unfoldable pub next : Call x S B ℤ
  unfolding next_inner scanner_poison_check set_last_error panic_payload_message
  next = do write_out none; m ← gets_world (λ m. m); next_on m.scanner (is_some m.out)

  abbrev pub poll_next_on : Option (Handle x S) → Bool → Bool → Call x S B PollStatus
  poll_next_on none has_out has_waker =
      refuse ErrorCode.invalid_argument (text "scanner must not be NULL") PollStatus.error
  poll_next_on (some h) has_out has_waker = scanner_poison_check PollStatus.error (
      if has_out
      then (if has_waker
          then (do outcome ← catch_unwind (poll_next_inner h); or_null PollStatus.error outcome)
          else refuse ErrorCode.invalid_argument (text "waker must not be NULL") PollStatus.error)
      else refuse ErrorCode.invalid_argument (text "out must not be NULL") PollStatus.error)

  -- `lance_scanner_poll_next`; the argument says whether a waker was given
  unfoldable pub poll_next : Bool → Call x S B PollStatus
  unfolding poll_next_inner scanner_poison_check set_last_error panic_payload_message
  poll_next has_waker = do
    write_out none
    m ← gets_world (λ m. m)
    poll_next_on m.scanner (is_some m.out) has_waker

module _ {x : External} {S R : Type 0} where
  abbrev pub export_result : Result LanceError R → Call x S R ℤ
  export_result (err e) = do set_lance_error e; pure minus_one
  export_result (ok stream) = do write_out (some stream); clear_last_error; pure (pos 0)

  abbrev pub or_poison : Caught ℤ → Call x S R ℤ
  or_poison (done code) = pure code
  or_poison (panicked p) = poisoned_by p minus_one

module _ {x : External} {S R : Type 0} (export : Scanner x → Caught (Result LanceError R)) where
  -- the closure that `lance_scanner_to_arrow_stream` guards; the stream is of the caller alone
  unfoldable pub export_inner : Handle x S → Call x S R ℤ
  unfolding set_lance_error clear_last_error
  export_inner h = do
    put_world (λ m. record m { scanner = start_handle m.scanner })
    exported ← lift (export (started h.config))
    export_result exported

  abbrev pub export_on : Option (Handle x S) → Bool → Call x S R ℤ
  export_on none has_out =
      refuse ErrorCode.invalid_argument (text "scanner must not be NULL") minus_one
  export_on (some h) has_out = scanner_poison_check minus_one (
      if has_out
      then (do outcome ← catch_unwind (export_inner h); or_poison outcome)
      else refuse ErrorCode.invalid_argument (text "out must not be NULL") minus_one)

  -- `lance_scanner_to_arrow_stream`
  unfoldable pub to_arrow_stream : Call x S R ℤ
  unfolding export_inner scanner_poison_check set_last_error panic_payload_message
  to_arrow_stream = do m ← gets_world (λ m. m); export_on m.scanner (is_some m.out)
