-- ===== src/Ffi/Report.antt =====
-- What a C caller finds after a guarded call: an independent description, and that the guard has it.
use lance_c.Prelude.{
  Text, text, Result, ok, err, Option, none, some, false, ◌≡◌, refl, ◌∙◌, ◌++◌, arith, has_nul,
  replace_nul, has_nul-replace_nul, replace_nul-of_clean, has_nul-append,
}
use lance_c.Ffi.Outcome.{Payload, str, string, other, Caught, done, panicked, State, Act, continue}
use lance_c.Ffi.LastError.{
  ErrorCode, ErrorKind, LanceError, LastError, sanitize, error_code_from_kind,
  panic_payload_message,
}
use lance_c.Ffi.Guard.{
  FfiFailure, recover_from_ffi_panic, map_result, or_recover, ffi_try, ffi_guard_with, guarded_body,
}

-- A stored message is the given one with its NULs replaced, also where it had none.
pub sanitize_lem : (t : Text) → sanitize t ≡ replace_nul t
unfolding sanitize
sanitize_lem t = ground (arith, replace_nul-of_clean t, has_nul-replace_nul t)

pub panic_payload_message_clean : (p : Payload) → has_nul (panic_payload_message p) ≡ false
unfolding panic_payload_message
panic_payload_message_clean (str t) = has_nul-replace_nul t
panic_payload_message_clean (string t) = has_nul-replace_nul t
panic_payload_message_clean other = has_nul-replace_nul (text "unknown panic payload")

-- the message that a panic leaves behind
abbrev pub panic_report : Payload → LastError
panic_report p = record {
  code = ErrorCode.panic;
  message = text "panic in FFI call: " ++ panic_payload_message p;
}

pub panic_report_clean :
    (p : Payload) → sanitize (panic_report p).message ≡ (panic_report p).message
panic_report_clean p =
    sanitize_lem _
    ∙ replace_nul-of_clean _ (
        has_nul-append (text "panic in FFI call: ") (panic_payload_message p)
          (panic_payload_message_clean p) refl)

-- what an error value is reported as: its own message, or the panic of its `Display`
abbrev pub displayed : ErrorCode → Caught Text → LastError
displayed code (done m) = record { code = code; message = replace_nul m }
displayed code (panicked p) = panic_report p

abbrev pub error_report : LanceError → LastError
error_report e = displayed (error_code_from_kind e.kind) e.display

module _ {A : Type 0} where
  -- The value and the error slot that C finds, by what the body did.
  abbrev pub call_report : Caught (Result LanceError A) → A → A × Option LastError
  call_report (done (ok a)) v = (a, none)
  call_report (done (err e)) v = (v, some (error_report e))
  call_report (panicked p) v = (v, some (panic_report p))

module _ {W A : Type 0} where
  recover_lem :
      (p : Payload) (v : A) (s : State LastError W)
      → recover_from_ffi_panic p (λ t. (done v, t)) s
        ≡ (done v, record s { tls = some (panic_report p) })
  unfolding recover_from_ffi_panic
  recover_lem p v s = rw (panic_report_clean p)

  abbrev verbatim : A → FfiFailure → Act LastError W A
  verbatim v _ t = (done v, t)

  -- the rest of the guard, once the body has returned or panicked
  abbrev after_body : A → Caught (Result LanceError A) → Act LastError W A
  after_body v r t =
      let (r', t') = continue r (map_result (verbatim v)) t in or_recover (verbatim v) r' t'

  after_body_lem :
      (v : A) (r : Caught (Result LanceError A)) (t : State LastError W)
      → after_body v r t ≡ (done (call_report r v).0, record t { tls = (call_report r v).1 })
  unfolding or_recover map_result
  after_body_lem v (panicked p) t = recover_lem p v t
  after_body_lem v (done (ok a)) t = refl
  after_body_lem v (done (err e)) t = error_display e.kind e.display
    where
      error_display :
          (k : ErrorKind) (d : Caught Text)
          → after_body v (done (err (record { kind = k; display = d }))) t
            ≡ (done v, record t { tls = some (displayed (error_code_from_kind k) d) })
      error_display k (done m) = rw (sanitize_lem m)
      error_display k (panicked p) = recover_lem p v t

  -- A guarded call with an error value returns what the report says and never unwinds: the body's
  -- value with the error slot cleared, or the error value with the slot holding the code and the
  -- message, free of NUL, of the error or of the panic, be it of the body or of the error's
  -- `Display`. Nothing else of the state changes but what the body changed.
  pub ffi_try_lem :
      (body : Act LastError W (Result LanceError A)) (v : A) (s : State LastError W)
      → let (r, t) = body s in
        ffi_try body v s ≡ (done (call_report r v).0, record t { tls = (call_report r v).1 })
  unfolding ffi_try
  ffi_try_lem body v s = let (r, t) = body s in after_body_lem v r t

module _ {W A : Type 0} where
  recovered :
      (p : Payload) (recover : Act LastError W A) (s : State LastError W)
      → ((t : State LastError W) → (a : A) × ((recover t).0 ≡ done a))
      → (a : A) × ((recover_from_ffi_panic p recover s).0 ≡ done a)
  unfolding recover_from_ffi_panic
  recovered p recover s h =
      let message = sanitize (text "panic in FFI call: " ++ panic_payload_message p) in
      let t : State LastError W = record s {
        tls = some (record { code = ErrorCode.panic; message = message });
      } in
      let (a, e) = h t in (a, rw e)

  settled :
      (on_failure : FfiFailure → Act LastError W A) (r : Caught A) (t : State LastError W)
      → ((t : State LastError W) → (a : A) × ((on_failure FfiFailure.panic t).0 ≡ done a))
      → (a : A) × ((or_recover on_failure r t).0 ≡ done a)
  unfolding or_recover
  settled on_failure (done a) t h = (a, refl)
  settled on_failure (panicked p) t h = recovered p (on_failure FfiFailure.panic) t h

  -- Whatever the body does, and whatever the error sentinel does on a Lance error, a guarded call
  -- returns a value and does not unwind, if the sentinel for a panic does not panic itself.
  pub ffi_guard_with_returns :
      (body : Act LastError W (Result LanceError A)) (on_failure : FfiFailure → Act LastError W A)
      (s : State LastError W)
      → ((t : State LastError W) → (a : A) × ((on_failure FfiFailure.panic t).0 ≡ done a))
      → (a : A) × ((ffi_guard_with body on_failure s).0 ≡ done a)
  unfolding ffi_guard_with
  ffi_guard_with_returns body on_failure s h =
      let (r, t) = guarded_body body on_failure s in settled on_failure r t h
