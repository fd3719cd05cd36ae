-- ===== src/Ffi/Examples.antt =====
-- The guard's theorems at concrete calls.
use lance_c.Prelude.{ℕ, text, Result, err, none, some, ◌≡◌}
use lance_c.Ffi.Outcome.{Payload, done, panicked, State, Act}
use lance_c.Ffi.LastError.{ErrorKind, LanceError, LastError}
use lance_c.Ffi.Guard.{FfiFailure, ffi_try}
use lance_c.Ffi.Report.{panic_report, ffi_try_lem}

abbrev start : State LastError ℕ
start = record { tls = none; world = 3 }

-- a body that counts up and then panics
abbrev panicking : Act LastError ℕ (Result LanceError ℕ)
panicking s = (panicked (Payload.str (text "boom")), record s { world = 4 })

abbrev boom : State LastError ℕ
boom = record { tls = some (panic_report (Payload.str (text "boom"))); world = 4 }

ffi_try_lem_example : ffi_try panicking 7 start ≡ (done 7, boom)
ffi_try_lem_example = ffi_try_lem panicking 7 start

abbrev broken : Act LastError ℕ (Result LanceError ℕ)
broken s = (done (err (record { kind = ErrorKind.io; display = done (text "disk") })), s)

-- a sentinel that panics on an error, but not on a panic
abbrev sentinel : FfiFailure → Act LastError ℕ ℕ
sentinel FfiFailure.lance s = (panicked Payload.other, s)
sentinel FfiFailure.panic s = (done 9, s)
