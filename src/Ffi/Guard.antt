-- ===== src/Ffi/Guard.antt =====
-- `ffi_guard_with`, the shapes of `ffi_try!`, and `swallow_unwind`.
use lance_c.Prelude.{text, ◌++◌, Result}
use lance_c.Ffi.Outcome.{Payload, Caught, Act, pure, ◌>>=◌, ◌>>◌, catch_unwind, resume_unwind}
use lance_c.Ffi.LastError.{
  ErrorCode, LanceError, LastError, clear_last_error, set_last_error, set_lance_error,
  panic_payload_message,
}

pub data FfiFailure : Type 0 where
  lance : FfiFailure
  panic : FfiFailure

module _ {W A : Type 0} where
  abbrev pub or_resume : Caught A → Act LastError W A
  or_resume (Caught.done value) = pure value
  or_resume (Caught.panicked p) = resume_unwind p

  unfoldable pub recover_from_ffi_panic : Payload → Act LastError W A → Act LastError W A
  unfolding set_last_error panic_payload_message
  recover_from_ffi_panic payload recover = do
    outcome ← catch_unwind (do
      set_last_error ErrorCode.panic (text "panic in FFI call: " ++ panic_payload_message payload)
      recover)
    or_resume outcome

  unfoldable pub map_result :
      (FfiFailure → Act LastError W A) → Result LanceError A → Act LastError W A
  unfolding clear_last_error set_lance_error
  map_result on_failure (Result.ok value) = do clear_last_error; pure value
  map_result on_failure (Result.err e) = do set_lance_error e; on_failure FfiFailure.lance

  -- the closure that `ffi_guard_with` runs under `catch_unwind`
  unfoldable pub guarded_body :
      Act LastError W (Result LanceError A) → (FfiFailure → Act LastError W A) → Act LastError W A
  unfolding map_result
  guarded_body body on_failure = do result ← body; map_result on_failure result

  unfoldable pub or_recover : (FfiFailure → Act LastError W A) → Caught A → Act LastError W A
  unfolding recover_from_ffi_panic
  or_recover on_failure (Caught.done value) = pure value
  or_recover on_failure (Caught.panicked p) = recover_from_ffi_panic p (on_failure FfiFailure.panic)

  unfoldable pub ffi_guard_with :
      Act LastError W (Result LanceError A) → (FfiFailure → Act LastError W A) → Act LastError W A
  unfolding guarded_body or_recover
  ffi_guard_with body on_failure = do
    outcome ← catch_unwind (guarded_body body on_failure)
    or_recover on_failure outcome

  -- `ffi_try!(body, errval)`: the error value is returned as it is on both failure paths.
  unfoldable pub ffi_try : Act LastError W (Result LanceError A) → A → Act LastError W A
  unfolding ffi_guard_with
  ffi_try body errval = ffi_guard_with body (λ _. pure errval)

module _ {W : Type 0} where
  -- A panic is logged and dropped; the log is not modelled.
  unfoldable pub swallow_unwind : Act LastError W (Unit {0}) → Act LastError W (Unit {0})
  swallow_unwind f = do _ ← catch_unwind f; pure tt
