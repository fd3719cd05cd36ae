-- ===== src/Scanner/Session/Entries.antt =====
-- What the entry points, and so whole sessions, keep of a scanner's configuration.
use lance_c.Prelude.{ℤ, pos, Option, none, some, Bool, true, false, List, [], ◌∷◌, Result, ok, err}
use lance_c.Ffi.Outcome.{Caught, done, panicked, State, pure, lift, catch_unwind, ◌>>=◌, ◌>>◌}
use lance_c.Ffi.LastError.{LanceError, LastError, set_lance_error, clear_last_error}
use lance_c.Scanner.Config.{External, Scanner}
use lance_c.Scanner.Handle
use lance_c.Scanner.Handle.{
  Handle, Memory, minus_one, poison, poison_handle, poisoning, setting_body, stored,
  scanner_ffi_try, close_handle,
}
use lance_c.Scanner.Iterate
use lance_c.Scanner.Iterate.{
  Engine, Call, Poll, PollStatus, write_out, refuse, poisoned_by, or_null, fail_null, keep_stream,
  materialize_stream, lazily, drive, report_item, report_poll, next_step, next_inner, poll_step,
  poll_next_inner, next_on, poll_next_on, export_result, export_inner, or_poison, export_on,
  started, start_handle, with_stream,
}
use lance_c.Scanner.Session.{Request, perform, session}
use lance_c.Scanner.Session.Keeps.{
  On, Keeps, bind-Keeps, catch-Keeps, set_lance_error-Keeps, swallow_unwind-Keeps,
  poison_check-Keeps,
}
use lance_c.Scanner.Session.Parts.{
  IsStable, configure-Keeps, guarded-Keeps, refuse-Keeps, lazily-Keeps, drive-Keeps,
  report_item-Keeps, report_poll-Keeps, fail_null-Keeps, poisoned_by-Keeps, clear_then-Keeps,
  start-On,
}

module _ {x : External} {S B : Type 0} {P : Scanner x → Type 0} (p : IsStable P) where
  next_step-Keeps :
      (engine : Engine x S B) (r : Result LanceError S)
      → Keeps {S = S} {B = B} P (next_step engine r)
  next_step-Keeps engine (err e) = fail_null-Keeps p e minus_one
  next_step-Keeps engine (ok st) =
      bind-Keeps P (drive engine.advance st) report_item (drive-Keeps p engine.advance st)
        (report_item-Keeps p)

  next_inner-Keeps :
      (engine : Engine x S B) (h : Handle x S) → Keeps {S = S} {B = B} P (next_inner engine h)
  unfolding next_inner
  next_inner-Keeps engine h =
      bind-Keeps P (lazily engine.open_stream h h.stream) (next_step engine)
        (lazily-Keeps p engine.open_stream h h.stream) (next_step-Keeps engine)

  next_on-Keeps :
      (engine : Engine x S B) (h : Option (Handle x S)) (has_out : Bool)
      → Keeps {S = S} {B = B} P (next_on engine h has_out)
  next_on-Keeps engine none has_out = refuse-Keeps p _ _ minus_one
  next_on-Keeps engine (some h) true =
      poison_check-Keeps P minus_one (catch_unwind (next_inner engine h) >>= or_null minus_one)
        (guarded-Keeps p (next_inner engine h) minus_one (next_inner-Keeps engine h))
  next_on-Keeps engine (some h) false =
      poison_check-Keeps P minus_one (refuse _ _ minus_one) (refuse-Keeps p _ _ minus_one)

  next-Keeps : (engine : Engine x S B) → Keeps {S = S} {B = B} P (Iterate.next engine)
  unfolding Iterate.next
  next-Keeps engine s h = next_on-Keeps engine s.world.scanner _ _ h

  poll_step-Keeps :
      (engine : Engine x S B) (r : Result LanceError S)
      → Keeps {S = S} {B = B} P (poll_step engine r)
  poll_step-Keeps engine (err e) = fail_null-Keeps p e PollStatus.error
  poll_step-Keeps engine (ok st) =
      bind-Keeps P (drive engine.poll st) report_poll (drive-Keeps p engine.poll st)
        (report_poll-Keeps p)

  poll_next_inner-Keeps :
      (engine : Engine x S B) (h : Handle x S) → Keeps {S = S} {B = B} P (poll_next_inner engine h)
  unfolding poll_next_inner
  poll_next_inner-Keeps engine h =
      bind-Keeps P (lazily engine.open_stream h h.stream) (poll_step engine)
        (lazily-Keeps p engine.open_stream h h.stream) (poll_step-Keeps engine)

  poll_next_on-Keeps :
      (engine : Engine x S B) (h : Option (Handle x S)) (has_out has_waker : Bool)
      → Keeps {S = S} {B = B} P (poll_next_on engine h has_out has_waker)
  poll_next_on-Keeps engine none has_out has_waker = refuse-Keeps p _ _ PollStatus.error
  poll_next_on-Keeps engine (some h) false has_waker =
      poison_check-Keeps P PollStatus.error (refuse _ _ PollStatus.error)
        (refuse-Keeps p _ _ PollStatus.error)
  poll_next_on-Keeps engine (some h) true false =
      poison_check-Keeps P PollStatus.error (refuse _ _ PollStatus.error)
        (refuse-Keeps p _ _ PollStatus.error)
  poll_next_on-Keeps engine (some h) true true =
      poison_check-Keeps P PollStatus.error
        (catch_unwind (poll_next_inner engine h) >>= or_null PollStatus.error)
        (guarded-Keeps p (poll_next_inner engine h) PollStatus.error
          (poll_next_inner-Keeps engine h))

  poll_next-Keeps :
      (engine : Engine x S B) (w : Bool) → Keeps {S = S} {B = B} P (Iterate.poll_next engine w)
  unfolding Iterate.poll_next
  poll_next-Keeps engine w s h = poll_next_on-Keeps engine s.world.scanner _ w _ h

  export_result-Keeps : (r : Result LanceError B) → Keeps {S = S} {B = B} P (export_result r)
  export_result-Keeps (err e) =
      bind-Keeps P (set_lance_error e) (λ _. pure minus_one) (set_lance_error-Keeps P e)
        (λ _ s h. h)
  export_result-Keeps (ok st) =
      bind-Keeps P (write_out (some st)) (λ _. clear_last_error >> pure (pos 0)) (λ s h. h)
        (λ _. clear_then-Keeps p (pure (pos 0)) (λ t k. k))

  export_inner-Keeps :
      (export : Scanner x → Caught (Result LanceError B)) (h : Handle x S)
      → Keeps {S = S} {B = B} P (export_inner export h)
  unfolding export_inner
  export_inner-Keeps export h s k =
      bind-Keeps P (lift (export (started h.config))) export_result (λ t j. j) export_result-Keeps _
        (start-On p s.world.scanner k)

  or_poison-Keeps : (r : Caught ℤ) → Keeps {S = S} {B = B} P (or_poison r)
  or_poison-Keeps (done code) = λ s h. h
  or_poison-Keeps (panicked q) = poisoned_by-Keeps p q minus_one

  export_on-Keeps :
      (export : Scanner x → Caught (Result LanceError B)) (h : Option (Handle x S)) (has_out : Bool)
      → Keeps {S = S} {B = B} P (export_on export h has_out)
  export_on-Keeps export none has_out = refuse-Keeps p _ _ minus_one
  export_on-Keeps export (some h) true =
      poison_check-Keeps P minus_one (catch_unwind (export_inner export h) >>= or_poison) (
        bind-Keeps P (catch_unwind (export_inner export h)) or_poison
          (catch-Keeps P (export_inner export h) (export_inner-Keeps export h)) or_poison-Keeps)
  export_on-Keeps export (some h) false =
      poison_check-Keeps P minus_one (refuse _ _ minus_one) (refuse-Keeps p _ _ minus_one)

  export-Keeps :
      (export : Scanner x → Caught (Result LanceError B))
      → Keeps {S = S} {B = B} P (Iterate.to_arrow_stream export)
  unfolding Iterate.to_arrow_stream
  export-Keeps export s h = export_on-Keeps export s.world.scanner _ s h

  close-Keeps :
      (drop_handle : Handle x S → Caught (Unit {0}))
      → Keeps {S = S} {B = B} P (Handle.close drop_handle)
  unfolding Handle.close
  close-Keeps drop_handle s h =
      swallow_unwind-Keeps P (close_handle drop_handle s.world.scanner) (on s.world.scanner) s h
    where
      on : (o : Option (Handle x S)) → Keeps {S = S} {B = B} P (close_handle drop_handle o)
      on none t k = k
      on (some c) t k = tt

  -- Each call, and so each session, keeps a predicate of the configuration that is stable.
  perform-Keeps :
      (engine : Engine x S B) (export : Scanner x → Caught (Result LanceError B))
      (drop_handle : Handle x S → Caught (Unit {0})) (r : Request x)
      → Keeps {S = S} {B = B} P (perform engine export drop_handle r)
  perform-Keeps engine export drop_handle (Request.configure c) =
      bind-Keeps P (Handle.configure c) (λ _. pure tt) (configure-Keeps p c) (λ _ s h. h)
  perform-Keeps engine export drop_handle Request.next =
      bind-Keeps P (Iterate.next engine) (λ _. pure tt) (next-Keeps engine) (λ _ s h. h)
  perform-Keeps engine export drop_handle (Request.poll_next w) =
      bind-Keeps P (Iterate.poll_next engine w) (λ _. pure tt) (poll_next-Keeps engine w)
        (λ _ s h. h)
  perform-Keeps engine export drop_handle Request.to_arrow_stream =
      bind-Keeps P (Iterate.to_arrow_stream export) (λ _. pure tt) (export-Keeps export)
        (λ _ s h. h)
  perform-Keeps engine export drop_handle Request.close = close-Keeps drop_handle

  pub session-On :
      (engine : Engine x S B) (export : Scanner x → Caught (Result LanceError B))
      (drop_handle : Handle x S → Caught (Unit {0})) (rs : List (Request x × Option (Option B)))
      (s : State LastError (Memory x S B))
      → On P s.world.scanner
      → On P (session engine export drop_handle rs s).world.scanner
  unfolding session
  session-On engine export drop_handle [] s h = h
  session-On engine export drop_handle ((r, out) ∷ rs) s h =
      session-On engine export drop_handle rs _ (perform-Keeps engine export drop_handle r _ h)
