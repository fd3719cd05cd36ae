-- ===== src/Scanner/Handle.antt =====
-- Calls on a scanner handle, which may be NULL or poisoned: the configuration calls through
-- `scanner_poison_check!` and `scanner_ffi_try!`, and the close.
pub mod Report
use lance_c.Prelude.{
  ℕ, zero, suc, ℤ, pos, negsuc, Text, text, Option, none, some, Bool, true, false, Result, ok, err,
  if◌then◌else◌,
}
use lance_c.Ffi.Outcome.{
  Caught, done, panicked, Act, State, pure, lift, gets_world, put_world, ◌>>=◌, ◌>>◌,
}
use lance_c.Ffi.LastError.{ErrorCode, LanceError, LastError, set_last_error}
use lance_c.Ffi.Guard.{FfiFailure, ffi_guard_with, swallow_unwind}
use lance_c.Scanner.Config.{External, Scanner, invalid}
use lance_c.Scanner.Calls.{Setting, apply}

-- `stream` is the lazily opened stream of `lance_scanner_next` and `lance_scanner_poll_next`.
pub record Handle (x : External) (S : Type 0) : Type 0 where
  pub config : Scanner x
  pub stream : Option S

-- The memory that a call reads and writes: the handle behind the scanner pointer, and what the
-- `out` pointer points to. A pointer that is NULL is `none`.
pub record Memory (x : External) (S B : Type 0) : Type 0 where
  pub scanner : Option (Handle x S)
  pub out : Option (Option B)

abbrev pub minus_one : ℤ
minus_one = negsuc 0

module _ {x : External} {S : Type 0} where
  abbrev pub set_poison : Handle x S → Handle x S
  set_poison h = record h { config = record (h.config) { poisoned = true } }

  abbrev pub poison_handle : Option (Handle x S) → Option (Handle x S)
  poison_handle none = none
  poison_handle (some h) = some (set_poison h)

  abbrev pub is_poisoned : Option (Handle x S) → Bool
  is_poisoned none = false
  is_poisoned (some h) = h.config.poisoned

module _ {x : External} {S B : Type 0} where
  abbrev pub poison : Memory x S B → Memory x S B
  poison m = record m { scanner = poison_handle m.scanner }

  -- `scanner_poison_check!`, and what the entry point does where it passes
  unfoldable pub scanner_poison_check :
      {A : Type 0} → A → Act LastError (Memory x S B) A → Act LastError (Memory x S B) A
  unfolding set_last_error
  scanner_poison_check errval rest s =
      if is_poisoned s.world.scanner
      then (do
        set_last_error ErrorCode.panic (text "scanner is poisoned by an earlier panic")
        pure errval)
          s
      else rest s

  -- the sentinel of `scanner_ffi_try!`
  abbrev pub poisoning : FfiFailure → Act LastError (Memory x S B) ℤ
  poisoning FfiFailure.lance = pure minus_one
  poisoning FfiFailure.panic = do put_world poison; pure minus_one

  unfoldable pub scanner_ffi_try :
      Act LastError (Memory x S B) (Result LanceError ℤ) → Act LastError (Memory x S B) ℤ
  unfolding ffi_guard_with
  scanner_ffi_try body = ffi_guard_with body poisoning

  -- an entry point that configures the scanner
  unfoldable pub scanner_call :
      Act LastError (Memory x S B) (Result LanceError ℤ) → Act LastError (Memory x S B) ℤ
  unfolding scanner_poison_check scanner_ffi_try
  scanner_call body = scanner_poison_check minus_one (scanner_ffi_try body)

  abbrev pub stored :
      Handle x S
      → Result LanceError (Scanner x)
      → Act LastError (Memory x S B) (Result LanceError ℤ)
  stored h (err e) = pure (err e)
  stored h (ok t) = do
    put_world (λ m. record m { scanner = some (record h { config = t }) })
    pure (ok (pos 0))

  abbrev pub setting_of :
      Setting x → Option (Handle x S) → Act LastError (Memory x S B) (Result LanceError ℤ)
  setting_of c none = pure (err (invalid "scanner is NULL"))
  setting_of c (some h) = stored h (apply c h.config)

  -- the body of a configuration call
  unfoldable pub setting_body : Setting x → Act LastError (Memory x S B) (Result LanceError ℤ)
  setting_body c = do scanner ← gets_world (λ m. m.scanner); setting_of c scanner

  unfoldable pub configure : Setting x → Act LastError (Memory x S B) ℤ
  unfolding scanner_call setting_body
  configure c = scanner_call (setting_body c)

  abbrev pub close_handle :
      (Handle x S → Caught (Unit {0}))
      → Option (Handle x S)
      → Act LastError (Memory x S B) (Unit {0})
  close_handle release none = pure tt
  close_handle release (some h) = do put_world (λ m. record m { scanner = none }); lift (release h)

  -- `lance_scanner_close`; `release` retires the wakers and drops the handle
  unfoldable pub close : (Handle x S → Caught (Unit {0})) → Act LastError (Memory x S B) (Unit {0})
  unfolding swallow_unwind
  close release = do
    scanner ← gets_world (λ m. m.scanner)
    swallow_unwind (close_handle release scanner)
