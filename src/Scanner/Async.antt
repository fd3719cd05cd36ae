-- ===== src/Scanner/Async.antt =====
-- `lance_scanner_scan_async` (src/scanner.rs): call-time setup, the task that it spawns, and the
-- completion that either hands to the dispatcher. What building a scanner gives (see Scanner.Build),
-- the runtime, and what Lance and Arrow do in the task are parameters.
pub mod Promise
pub mod Schedule
pub mod Accounts
pub mod Once
pub mod Complete
mod Examples
use lance_c.Prelude.{
  ℕ, zero, suc, ℤ, pos, negsuc, Text, text, Result, ok, err, Option, none, some, Bool, true, false,
  List, [], ◌∷◌, ◌++◌, ◌==◌, if◌then◌else◌,
}
use lance_c.Ffi.Outcome.{
  Caught, done, panicked, Act, State, pure, lift, catch_unwind, gets_world, put_world, ◌>>=◌, ◌>>◌,
}
use lance_c.Ffi.LastError.{
  ErrorCode, LanceError, LastError, set_last_error, set_lance_error, error_code_from_kind,
  panic_payload_message,
}
use lance_c.Ffi.Guard.{swallow_unwind}
use lance_c.Scanner.Config.{External, Scanner}
use lance_c.Scanner.Handle.{Handle, minus_one, poison_handle, is_poisoned}
use lance_c.Scanner.Iterate.{started as mark_started, start_handle}
use lance_c.Stream.Reader.{Reader, new, drop}
use lance_c.Dispatcher.{Message, Channel, Callback, dispatch_message}

-- a spawned task: the scanner that was built, and the `callback_ctx` that it will complete
pub record Task (P : Type 0) : Type 0 where
  pub built : P
  pub callback_ctx : ℕ

-- The scanner behind the pointer, the dispatcher's channel, the tasks of the runtime that were not
-- run yet, and the streams handed out, each with the address of its box.
pub record Scans (x : External) (S P R : Type 0) : Type 0 where
  pub scanner : Option (Handle x S)
  pub channel : Channel
  pub tasks : List (Task P)
  pub streams : List (ℕ × Reader R)

module _ {x : External} {S P R : Type 0} (callback : Callback) (started : Bool) where
  -- an action on the channel
  abbrev pub on_channel : {A : Type 0} → Act LastError Channel A → Act LastError (Scans x S P R) A
  on_channel m s =
      let (r, t) = m (record { tls = s.tls; world = s.world.channel }) in
      (r, record { tls = t.tls; world = record (s.world) { channel = t.world } })

  -- `dispatch_callback`
  unfoldable pub dispatch_callback :
      ℕ → ℤ → ℕ → Option (ErrorCode × Text) → Act LastError (Scans x S P R) (Unit {0})
  unfolding dispatch_message
  dispatch_callback ctx status result error = on_channel (
      dispatch_message callback started
        (record { callback_ctx = ctx; status = status; result = result; error = error }))

  -- the two arms that report an error at call time set the caller's error slot too
  unfoldable pub refuse_call : ℕ → ErrorCode → Text → Act LastError (Scans x S P R) (Unit {0})
  unfolding set_last_error dispatch_callback
  refuse_call ctx code message = do
    set_last_error code message
    dispatch_callback ctx minus_one 0 (some (code, message))

  abbrev pub spawn : Task P → Act LastError (Scans x S P R) (Unit {0})
  spawn t = put_world (λ w. record w { tasks = w.tasks ++ t ∷ [] })

  -- `runtime` is the access to the runtime, which may panic
  abbrev pub spawn_built :
      ℕ → Caught (Unit {0}) → Result LanceError P → Act LastError (Scans x S P R) (Unit {0})
  spawn_built ctx runtime (err e) = do
    set_lance_error e
    message ← lift e.display
    dispatch_callback ctx minus_one 0 (some (error_code_from_kind e.kind, message))
  spawn_built ctx runtime (ok built) = do
    lift runtime
    spawn (record { built = built; callback_ctx = ctx })

  -- `build_scanner` raises `scan_started` before all else
  abbrev pub set_up :
      ℕ
      → (Scanner x → Caught (Result LanceError P))
      → Caught (Unit {0})
      → Option (Handle x S)
      → Act LastError (Scans x S P R) (Unit {0})
  set_up ctx build runtime none =
      refuse_call ctx ErrorCode.invalid_argument (text "scanner is NULL")
  set_up ctx build runtime (some h) =
      if h.config.poisoned
      then refuse_call ctx ErrorCode.panic (text "scanner is poisoned by an earlier panic")
      else (do
        put_world (λ w. record w { scanner = start_handle w.scanner })
        built ← lift (build (mark_started h.config))
        spawn_built ctx runtime built)

  unfoldable pub scan_async_setup :
      ℕ
      → (Scanner x → Caught (Result LanceError P))
      → Caught (Unit {0})
      → Act LastError (Scans x S P R) (Unit {0})
  unfolding set_lance_error refuse_call dispatch_callback error_code_from_kind
  scan_async_setup ctx build runtime = do
    scanner ← gets_world (λ w. w.scanner)
    set_up ctx build runtime scanner

  abbrev pub poison_scanner : Act LastError (Scans x S P R) (Unit {0})
  poison_scanner = put_world (λ w. record w { scanner = poison_handle w.scanner })

  abbrev pub report_panic : ℕ → Caught (Unit {0}) → Act LastError (Scans x S P R) (Unit {0})
  report_panic ctx (done _) = pure tt
  report_panic ctx (panicked p) = do
    poison_scanner
    swallow_unwind (
        dispatch_callback ctx minus_one 0
          (some (ErrorCode.panic, text "panic in FFI call: " ++ panic_payload_message p)))

  -- the entry guard around the setup
  unfoldable pub scan_async_guarded :
      ℕ → Act LastError (Scans x S P R) (Unit {0}) → Act LastError (Scans x S P R) (Unit {0})
  unfolding swallow_unwind dispatch_callback panic_payload_message
  scan_async_guarded ctx setup = do outcome ← catch_unwind setup; report_panic ctx outcome

  -- `lance_scanner_scan_async`; the flag says whether the callback is there
  unfoldable pub scan_async :
      Bool
      → ℕ
      → (Scanner x → Caught (Result LanceError P))
      → Caught (Unit {0})
      → Act LastError (Scans x S P R) (Unit {0})
  unfolding scan_async_guarded scan_async_setup set_last_error
  scan_async false ctx build runtime =
      set_last_error ErrorCode.invalid_argument (text "callback must not be NULL")
  scan_async true ctx build runtime = scan_async_guarded ctx (scan_async_setup ctx build runtime)

  module _ {E : Type 0} (conversion : R → Caught (Result LanceError E)) (address : ℕ) where
    -- The stream is wrapped in a guarded reader, and boxed at the address.
    abbrev pub export_stream : ℕ → Result LanceError R → Act LastError (Scans x S P R) (Unit {0})
    export_stream ctx (ok stream) = do
      scanner ← gets_world (λ w. w.scanner)
      reader ← lift (new stream (conversion stream) (is_poisoned scanner))
      put_world (λ w. record w { streams = w.streams ++ (address, reader) ∷ [] })
      dispatch_callback ctx (pos 0) address none
    export_stream ctx (err e) = do
      message ← lift e.display
      dispatch_callback ctx minus_one 0 (some (error_code_from_kind e.kind, message))

    abbrev pub report_task_panic : ℕ → Caught (Unit {0}) → Act LastError (Scans x S P R) (Unit {0})
    report_task_panic ctx (done _) = pure tt
    report_task_panic ctx (panicked p) = do
      poison_scanner
      dispatch_callback ctx minus_one 0
          (some (ErrorCode.panic, text "panic in FFI call: " ++ panic_payload_message p))

    -- the task, with what `try_into_stream` gives
    unfoldable pub run_task :
        Task P → (P → Caught (Result LanceError R)) → Act LastError (Scans x S P R) (Unit {0})
    unfolding new dispatch_callback error_code_from_kind panic_payload_message
    run_task t try_into_stream = do
      outcome ←
          catch_unwind
            (do stream ← lift (try_into_stream t.built); export_stream t.callback_ctx stream)
      report_task_panic t.callback_ctx outcome

abbrev pub without_stream : {R : Type 0} → ℕ → List (ℕ × Reader R) → List (ℕ × Reader R)
without_stream address [] = []
without_stream address ((a, reader) ∷ streams) =
    let rest = without_stream address streams in
    if a == address then streams else (a, reader) ∷ rest

module _ {x : External} {S P R : Type 0} (release : R → Caught (Unit {0})) where
  -- the reader of a box is dropped, unless its stream was released before
  abbrev pub drop_boxed : ℕ → List (ℕ × Reader R) → Act LastError (Scans x S P R) (Unit {0})
  drop_boxed address [] = pure tt
  drop_boxed address ((a, reader) ∷ streams) =
      if a == address
      then (λ s.
          let (r, t) = drop release (record { tls = s.tls; world = reader }) in
          (r, record { tls = t.tls; world = s.world }))
      else drop_boxed address streams

  -- `lance_scanner_async_stream_free`; NULL is `none`
  unfoldable pub async_stream_free : Option ℕ → Act LastError (Scans x S P R) (Unit {0})
  unfolding swallow_unwind drop
  async_stream_free none = pure tt
  async_stream_free (some address) = do
    streams ← gets_world (λ w. w.streams)
    put_world (λ w. record w { streams = without_stream address streams })
    swallow_unwind (drop_boxed address streams)
