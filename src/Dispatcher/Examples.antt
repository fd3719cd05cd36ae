-- ===== src/Dispatcher/Examples.antt =====
-- Three completions, one of them failed, and a callback that takes the error and then unwinds.
use lance_c.Prelude.{ℕ, pos, negsuc, text, none, some, true, List, [], ◌∷◌, map, ◌≡◌}
use lance_c.Ffi.Outcome.{panicked, Payload}
use lance_c.Ffi.LastError.{ErrorCode}
use lance_c.Dispatcher.{Message, Callback, Event, dispatch, turn, run}
use lance_c.Dispatcher.Order.{expected, pending, idle, run_lem}

abbrev unwinding : Callback
unwinding m tls = (panicked Payload.other, none)

abbrev succeeded : ℕ → Message
succeeded ctx = record { callback_ctx = ctx; status = pos 0; result = 5; error = none }

abbrev failed : Message
failed = record {
  callback_ctx = 2;
  status = negsuc 0;
  result = 0;
  error = some (ErrorCode.io_error, text "disk");
}

abbrev events : List Event
events =
    dispatch none (succeeded 1)
    ∷ dispatch none failed
    ∷ turn none
    ∷ dispatch none (succeeded 3)
    ∷ []

run_lem_example :
    pending (run unwinding true events idle)
    ≡ map expected (succeeded 1 ∷ failed ∷ succeeded 3 ∷ [])
run_lem_example = run_lem unwinding true events
