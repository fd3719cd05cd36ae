-- ===== src/Scanner/Session/Parts.antt =====
-- What the parts of the entry points keep of a scanner's configuration.
use lance_c.Prelude.{ℕ, pos, text, ◌++◌, Option, none, some, true, List, Result, ok, err, ◌≡◌, refl}
use lance_c.Ffi.Outcome.{
  Caught, done, panicked, Payload, pure, lift, catch_unwind, put_world, ◌>>=◌, ◌>>◌,
}
use lance_c.Ffi.LastError.{
  LanceError, ErrorCode, set_last_error, set_lance_error, clear_last_error, panic_payload_message,
}
use lance_c.Ffi.Guard.{FfiFailure}
use lance_c.Scanner.Config.{External, Scanner}
use lance_c.Scanner.Calls.{Setting, apply}
use lance_c.Scanner.Handle
use lance_c.Scanner.Handle.{
  Handle, Memory, minus_one, poison, poison_handle, poisoning, setting_body, stored,
  scanner_ffi_try, close_handle,
}
use lance_c.Scanner.Iterate.{
  Call, Poll, PollStatus, write_out, refuse, poisoned_by, or_null, fail_null, keep_stream,
  materialize_stream, lazily, drive, report_item, report_poll, started, start_handle, with_stream,
}
use lance_c.Scanner.Session.Keeps.{
  On, Keeps, bind-Keeps, catch-Keeps, set_last_error-Keeps, clear_last_error-Keeps,
  set_lance_error-Keeps, ffi_guard_with-Keeps, poison_check-Keeps,
}

-- A predicate of the configuration that the configuration calls keep, and the two flags too.
pub record IsStable {x : External} (P : Scanner x → Type 0) : Type 0 where
  pub starts : (c : Scanner x) → P c → P (started c)
  pub poisons : (c : Scanner x) → P c → P (record c { poisoned = true })
  pub applies : (r : Setting x) (c t : Scanner x) → P c → apply r c ≡ ok t → P t

module _ {x : External} {S : Type 0} {P : Scanner x → Type 0} (p : IsStable P) where
  poison-On : (h : Option (Handle x S)) → On P h → On P (poison_handle h)
  poison-On none h = h
  poison-On (some c) h = p.poisons c.config h

  pub start-On : (h : Option (Handle x S)) → On P h → On P (start_handle h)
  start-On none h = h
  start-On (some c) h = p.starts c.config h

module _ {x : External} {S : Type 0} (P : Scanner x → Type 0) where
  stream-On : (st : S) (h : Option (Handle x S)) → On P h → On P (with_stream st h)
  stream-On st none h = h
  stream-On st (some c) h = h

module _ {x : External} {S B : Type 0} {P : Scanner x → Type 0} (p : IsStable P) where
  poisoning-Keeps : (f : FfiFailure) → Keeps {S = S} {B = B} P (poisoning f)
  poisoning-Keeps FfiFailure.lance = λ s h. h
  poisoning-Keeps FfiFailure.panic = λ s h. poison-On p s.world.scanner h

  setting_body-Keeps : (c : Setting x) → Keeps {S = S} {B = B} P (setting_body c)
  unfolding setting_body
  setting_body-Keeps c s h = on s.world.scanner h
    where
      on :
          (o : Option (Handle x S))
          → On P o
          → On P (Handle.setting_of {B = B} c o s).1.world.scanner
      on none k = h
      on (some c') k = kept (apply c c'.config) (λ t e. p.applies c c'.config t k e)
        where
          kept :
              (r : Result LanceError (Scanner x))
              → ((t : Scanner x) → r ≡ ok t → P t)
              → On P (stored {B = B} c' r s).1.world.scanner
          kept (ok t) f = f t refl
          kept (err e) f = h

  pub configure-Keeps : (c : Setting x) → Keeps {S = S} {B = B} P (Handle.configure c)
  unfolding Handle.configure scanner_ffi_try
  configure-Keeps c =
      poison_check-Keeps P minus_one (scanner_ffi_try (setting_body c))
        (ffi_guard_with-Keeps P (setting_body c) poisoning (setting_body-Keeps c) poisoning-Keeps)

  pub refuse-Keeps :
      {A : Type 0} (code : ErrorCode) (message : List ℕ) (errval : A)
      → Keeps {S = S} {B = B} P (refuse code message errval)
  refuse-Keeps code message errval =
      bind-Keeps P (set_last_error code message) (λ _. pure errval)
        (set_last_error-Keeps P code message) (λ _ s h. h)

  pub poisoned_by-Keeps :
      {A : Type 0} (q : Payload) (errval : A) → Keeps {S = S} {B = B} P (poisoned_by q errval)
  poisoned_by-Keeps q errval s h =
      refuse-Keeps ErrorCode.panic (text "panic in FFI call: " ++ panic_payload_message q) errval
        (record s { world = poison s.world }) (poison-On p s.world.scanner h)

  or_null-Keeps :
      {A : Type 0} (errval : A) (r : Caught A) → Keeps {S = S} {B = B} P (or_null errval r)
  or_null-Keeps errval (done a) = λ s h. h
  or_null-Keeps errval (panicked q) =
      bind-Keeps P (poisoned_by q errval) (λ e. write_out none >> pure e)
        (poisoned_by-Keeps q errval) (λ _ s h. h)

  pub fail_null-Keeps :
      {A : Type 0} (e : LanceError) (errval : A) → Keeps {S = S} {B = B} P (fail_null e errval)
  fail_null-Keeps e errval =
      bind-Keeps P (set_lance_error e) (λ _. write_out none >> pure errval)
        (set_lance_error-Keeps P e) (λ _ s h. h)

  pub clear_then-Keeps :
      {A : Type 0} (m : Call x S B A)
      → Keeps {S = S} {B = B} P m
      → Keeps {S = S} {B = B} P (clear_last_error >> m)
  clear_then-Keeps m km =
      bind-Keeps P clear_last_error (λ _. m) (clear_last_error-Keeps P) (λ _. km)

  pub lazily-Keeps :
      (opens : Scanner x → Caught (Result LanceError S)) (h : Handle x S) (stream : Option S)
      → Keeps {S = S} {B = B} P (lazily opens h stream)
  unfolding materialize_stream
  lazily-Keeps opens h (some st) = λ s k. k
  lazily-Keeps opens h none =
      bind-Keeps P (put_world (λ m. record m { scanner = start_handle m.scanner }))
        (λ _. lift (opens (started h.config)) >>= keep_stream) (λ s k. start-On p s.world.scanner k)
        (λ _. bind-Keeps P (lift (opens (started h.config))) keep_stream (λ s k. k) keep)
    where
      keep : (r : Result LanceError S) → Keeps {S = S} {B = B} P (keep_stream r)
      keep (err e) = λ s k. k
      keep (ok st) = λ s k. stream-On P st s.world.scanner k

  pub drive-Keeps :
      {A : Type 0} (step : S → Caught A × S) (st : S) → Keeps {S = S} {B = B} P (drive step st)
  drive-Keeps step st s h = let (r, st') = step st in stream-On P st' s.world.scanner h

  pub report_item-Keeps :
      (i : Option (Result LanceError B)) → Keeps {S = S} {B = B} P (report_item i)
  report_item-Keeps (some (ok b)) = clear_then-Keeps (write_out (some b) >> pure (pos 0)) (λ s h. h)
  report_item-Keeps (some (err e)) = fail_null-Keeps e minus_one
  report_item-Keeps none = clear_then-Keeps (write_out none >> pure (pos 1)) (λ s h. h)

  pub report_poll-Keeps : (i : Poll B) → Keeps {S = S} {B = B} P (report_poll i)
  report_poll-Keeps (Poll.ready (some (ok b))) =
      clear_then-Keeps (write_out (some b) >> pure PollStatus.ready) (λ s h. h)
  report_poll-Keeps (Poll.ready (some (err e))) = fail_null-Keeps e PollStatus.error
  report_poll-Keeps (Poll.ready none) =
      clear_then-Keeps (write_out none >> pure PollStatus.finished) (λ s h. h)
  report_poll-Keeps Poll.pending =
      clear_then-Keeps (write_out none >> pure PollStatus.pending) (λ s h. h)

  -- the guarded part of `next` and of `poll_next`
  pub guarded-Keeps :
      {A : Type 0} (m : Call x S B A) (errval : A)
      → Keeps {S = S} {B = B} P m
      → Keeps {S = S} {B = B} P (catch_unwind m >>= or_null errval)
  guarded-Keeps m errval km =
      bind-Keeps P (catch_unwind m) (or_null errval) (catch-Keeps P m km) (or_null-Keeps errval)
