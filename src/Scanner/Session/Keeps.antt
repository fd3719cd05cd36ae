-- ===== src/Scanner/Session/Keeps.antt =====
-- Computations that keep a predicate of the handle's configuration, part by part.
use lance_c.Prelude.{
  ℕ, text, ◌++◌, Option, none, some, List, Result, ok, err, Bool-cases, inl, inr, sym, subst,
  if_true, if_false,
}
use lance_c.Ffi.Outcome.{
  Caught, done, panicked, Payload, State, Act, pure, lift, continue, catch_unwind, ◌>>=◌, ◌>>◌,
}
use lance_c.Ffi.LastError.{
  LanceError, LastError, ErrorCode, set_last_error, set_lance_error, clear_last_error,
  error_code_from_kind, panic_payload_message,
}
use lance_c.Ffi.Guard.{
  FfiFailure, ffi_guard_with, guarded_body, map_result, or_recover, or_resume,
  recover_from_ffi_panic, swallow_unwind,
}
use lance_c.Scanner.Config.{External, Scanner}
use lance_c.Scanner.Handle.{Handle, Memory, is_poisoned, scanner_poison_check}

module _ {x : External} {S : Type 0} where
  -- the predicate of a handle that is there
  abbrev pub On : (Scanner x → Type 0) → Option (Handle x S) → Type 0
  On P none = Unit
  On P (some h) = P h.config

module _ {x : External} {S B : Type 0} where
  abbrev pub Keeps : (Scanner x → Type 0) → {A : Type 0} → Act LastError (Memory x S B) A → Type 0
  Keeps P m =
      (s : State LastError (Memory x S B)) → On P s.world.scanner → On P (m s).1.world.scanner

module _ {x : External} {S B : Type 0} (P : Scanner x → Type 0) where
  continue-Keeps :
      {A C : Type 0} (r : Caught A) (t : State LastError (Memory x S B))
      (f : A → Act LastError (Memory x S B) C)
      → On P t.world.scanner
      → ((a : A) → Keeps P (f a))
      → On P (continue r f t).1.world.scanner
  continue-Keeps (done a) t f h k = k a t h
  continue-Keeps (panicked p) t f h k = h

  pub bind-Keeps :
      {A C : Type 0} (m : Act LastError (Memory x S B) A) (f : A → Act LastError (Memory x S B) C)
      → Keeps P m
      → ((a : A) → Keeps P (f a))
      → Keeps P (m >>= f)
  bind-Keeps m f km kf s h = let (r, t) = m s in continue-Keeps r t f (km s h) kf

  pub catch-Keeps :
      {A : Type 0} (m : Act LastError (Memory x S B) A) → Keeps P m → Keeps P (catch_unwind m)
  catch-Keeps m km s h = km s h

  pub set_last_error-Keeps :
      (code : ErrorCode) (message : List ℕ) → Keeps {S = S} {B = B} P (set_last_error code message)
  unfolding set_last_error
  set_last_error-Keeps code message s h = h

  pub clear_last_error-Keeps : Keeps {S = S} {B = B} P clear_last_error
  unfolding clear_last_error
  clear_last_error-Keeps s h = h

  pub set_lance_error-Keeps : (e : LanceError) → Keeps {S = S} {B = B} P (set_lance_error e)
  unfolding set_lance_error
  set_lance_error-Keeps e =
      bind-Keeps (lift e.display) (set_last_error (error_code_from_kind e.kind)) (λ s h. h)
        (λ m. set_last_error-Keeps (error_code_from_kind e.kind) m)

  map_result-Keeps :
      {A : Type 0} (on_failure : FfiFailure → Act LastError (Memory x S B) A)
      (r : Result LanceError A)
      → ((f : FfiFailure) → Keeps P (on_failure f))
      → Keeps P (map_result on_failure r)
  unfolding map_result
  map_result-Keeps on_failure (ok a) k =
      bind-Keeps clear_last_error (λ _. pure a) clear_last_error-Keeps (λ _ s h. h)
  map_result-Keeps on_failure (err e) k =
      bind-Keeps (set_lance_error e) (λ _. on_failure FfiFailure.lance) (set_lance_error-Keeps e)
        (λ _. k FfiFailure.lance)

  resume-Keeps : {A : Type 0} (r : Caught A) → Keeps {S = S} {B = B} P (or_resume r)
  resume-Keeps (done a) s h = h
  resume-Keeps (panicked p) s h = h

  recover-Keeps :
      {A : Type 0} (p : Payload) (m : Act LastError (Memory x S B) A)
      → Keeps P m
      → Keeps P (recover_from_ffi_panic p m)
  unfolding recover_from_ffi_panic
  recover-Keeps p m km =
      let message = text "panic in FFI call: " ++ panic_payload_message p in
      let report : Act LastError (Memory x S B) (Unit {0}) =
        set_last_error ErrorCode.panic message in
      bind-Keeps (catch_unwind (report >> m)) or_resume
        (bind-Keeps report (λ _. m) (set_last_error-Keeps ErrorCode.panic message) (λ _. km))
        resume-Keeps

  or_recover-Keeps :
      {A : Type 0} (on_failure : FfiFailure → Act LastError (Memory x S B) A) (r : Caught A)
      → ((f : FfiFailure) → Keeps P (on_failure f))
      → Keeps P (or_recover on_failure r)
  unfolding or_recover
  or_recover-Keeps on_failure (done a) k = λ s h. h
  or_recover-Keeps on_failure (panicked p) k =
      recover-Keeps p (on_failure FfiFailure.panic) (k FfiFailure.panic)

  pub ffi_guard_with-Keeps :
      {A : Type 0} (body : Act LastError (Memory x S B) (Result LanceError A))
      (on_failure : FfiFailure → Act LastError (Memory x S B) A)
      → Keeps P body
      → ((f : FfiFailure) → Keeps P (on_failure f))
      → Keeps P (ffi_guard_with body on_failure)
  unfolding ffi_guard_with
  ffi_guard_with-Keeps body on_failure kb kf =
      bind-Keeps (catch_unwind (guarded_body body on_failure)) (or_recover on_failure)
        (bind-Keeps body (map_result on_failure) kb (λ r. map_result-Keeps on_failure r kf))
        (λ r. or_recover-Keeps on_failure r kf)

  pub swallow_unwind-Keeps :
      (m : Act LastError (Memory x S B) (Unit {0})) → Keeps P m → Keeps P (swallow_unwind m)
  unfolding swallow_unwind
  swallow_unwind-Keeps m km = bind-Keeps (catch_unwind m) (λ _. pure tt) km (λ _ s h. h)

  pub poison_check-Keeps :
      {A : Type 0} (errval : A) (m : Act LastError (Memory x S B) A)
      → Keeps P m
      → Keeps P (scanner_poison_check errval m)
  unfolding scanner_poison_check
  poison_check-Keeps errval m km s h = elim (Bool-cases (is_poisoned s.world.scanner)) [
    | inl e ↦ subst (λ r. On P r.1.world.scanner) (sym (if_true _ (m s) e)) h
    | inr e ↦ subst (λ r. On P r.1.world.scanner) (sym (if_false _ (m s) e)) (km s h)
  ]
