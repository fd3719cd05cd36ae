-- ===== src/Scanner/Handle/Report.antt =====
-- What a C caller finds after a call on a scanner handle.
use lance_c.Prelude.{
  ℤ, Text, text, none, some, Result, ok, err, if◌then◌else◌, ◌≡◌, refl, Bool-cases, inl, inr,
}
use lance_c.Ffi.Outcome.{Caught, done, panicked, Payload, Act, State, continue}
use lance_c.Ffi.LastError.{
  ErrorCode, ErrorKind, LanceError, LastError, error_code_from_kind, sanitize,
}
use lance_c.Ffi.Guard.{FfiFailure, map_result, or_recover, recover_from_ffi_panic}
use lance_c.Ffi.Report.{panic_report, displayed, panic_report_clean, sanitize_lem}
use lance_c.Scanner.Config.{External}
use lance_c.Scanner.Handle.{Memory, minus_one, poison, is_poisoned, poisoning, scanner_call}

abbrev pub poison_report : LastError
poison_report = record {
  code = ErrorCode.panic;
  message = text "scanner is poisoned by an earlier panic";
}

module _ {x : External} {S B : Type 0} where
  abbrev after_panic :
      Payload → State LastError (Memory x S B) → Caught ℤ × State LastError (Memory x S B)
  after_panic p t = (done minus_one, record { tls = some (panic_report p); world = poison t.world })

  abbrev after_error :
      LastError → State LastError (Memory x S B) → Caught ℤ × State LastError (Memory x S B)
  after_error e t = (done minus_one, record t { tls = some e })

  -- What the body's outcome is to the caller: a panic, also one while the error is formatted,
  -- poisons the handle, and an error does not.
  abbrev pub outcome :
      Caught (Result LanceError ℤ)
      → State LastError (Memory x S B)
      → Caught ℤ × State LastError (Memory x S B)
  outcome (done (ok code)) t = (done code, record t { tls = none })
  outcome (done (err e)) t = failed e.display
    where
      failed : Caught Text → Caught ℤ × State LastError (Memory x S B)
      failed (done m) = after_error (displayed (error_code_from_kind e.kind) (done m)) t
      failed (panicked p) = after_panic p t
  outcome (panicked p) t = after_panic p t

  recovered :
      (p : Payload) (t : State LastError (Memory x S B))
      → recover_from_ffi_panic p (poisoning FfiFailure.panic) t ≡ after_panic p t
  unfolding recover_from_ffi_panic
  recovered p t = rw (panic_report_clean p)

  abbrev after_body :
      Caught (Result LanceError ℤ)
      → State LastError (Memory x S B)
      → Caught ℤ × State LastError (Memory x S B)
  after_body r t = let (r', t') = continue r (map_result poisoning) t in or_recover poisoning r' t'

  after_body_lem :
      (r : Caught (Result LanceError ℤ)) (t : State LastError (Memory x S B))
      → after_body r t ≡ outcome r t
  unfolding or_recover map_result
  after_body_lem (panicked p) t = recovered p t
  after_body_lem (done (ok a)) t = refl
  after_body_lem (done (err e)) t = error_display e.kind e.display
    where
      error_display :
          (k : ErrorKind) (d : Caught Text)
          → after_body (done (err (record { kind = k; display = d }))) t
            ≡ outcome (done (err (record { kind = k; display = d }))) t
      error_display k (done m) = rw (sanitize_lem m)
      error_display k (panicked p) = recovered p t

  -- A call on a poisoned scanner does not run its body: it returns -1 with the code of a panic and
  -- changes nothing but the error slot. On every other pointer the call returns what the body's
  -- outcome is to the caller, and the scanner is poisoned exactly if there was a panic.
  pub scanner_call_lem :
      (body : Act LastError (Memory x S B) (Result LanceError ℤ))
      (s : State LastError (Memory x S B))
      → scanner_call body s ≡ (
          if is_poisoned s.world.scanner
          then (done minus_one, record s { tls = some poison_report })
          else (let (r, t) = body s in outcome r t))
  unfolding scanner_call sanitize
  scanner_call_lem body s = elim (Bool-cases (is_poisoned s.world.scanner)) [
    | inl e ↦ rw e
    | inr e ↦ rw e (let (r, t) = body s in after_body_lem r t)
  ]
