-- ===== src/Scanner/Async/Promise.antt =====
-- An asynchronous scan hands one completion to the dispatcher, or spawns one task that does.
use lance_c.Prelude.{
  text, ◌⊎◌, inl, inr, if◌then◌else◌, ℕ, pos, Text, Result, ok, err, Option, none, some, Bool, true,
  false, [], ◌∷◌, ◌++◌, ◌≡◌, refl, sym, ap, subst,
}
use lance_c.Ffi.Outcome.{
  Caught, done, panicked, Payload, State, lift, put_world, ◌>>◌, continue, ◌>>=◌,
}
use lance_c.Ffi.Guard.{swallow_unwind}
use lance_c.Ffi.LastError.{
  ErrorKind, set_lance_error, ErrorCode, LanceError, LastError, set_last_error, clear_last_error,
}
use lance_c.Scanner.Config.{External, Scanner}
use lance_c.Scanner.Handle.{Handle, minus_one, is_poisoned}
use lance_c.Stream.Reader.{Reader, new}
use lance_c.Dispatcher.{
  Message, Channel, Callback, deliver_message, dispatch_message, dispatch, happen,
}
use lance_c.Scanner.Iterate.{started as mark_started, start_handle}
use lance_c.Scanner.Async.{
  Task, Scans, on_channel, dispatch_callback, refuse_call, spawn_built, set_up, scan_async_setup,
  report_panic, scan_async_guarded, scan_async, export_stream, report_task_panic, run_task,
}

-- a completion for a context: a stream and no error, or an error and no stream
pub data Promise (ctx : ℕ) : Message → Type 0 where
  success :
      (address : ℕ)
      → Promise ctx (record { callback_ctx = ctx; status = pos 0; result = address; error = none })
  failure :
      (code : ErrorCode) (message : Text)
      → Promise ctx (record {
        callback_ctx = ctx;
        status = minus_one;
        result = 0;
        error = some (code, message);
      })

dispatch_returns :
    (callback : Callback) (started : Bool) (m : Message) (s : State LastError Channel)
    → (dispatch_message callback started m s).0 ≡ done tt
unfolding dispatch_message deliver_message set_last_error clear_last_error
dispatch_returns callback true m s = refl
dispatch_returns callback false m s = delivered m.error
  where
    delivered :
        (e : Option (ErrorCode × Text))
        → (deliver_message callback (record m { error = e }) s).0 ≡ done tt
    delivered none = refl
    delivered (some (code, message)) = refl

module _ {x : External} {S P R : Type 0} (callback : Callback) (started : Bool) where
  -- one completion for the context was handed to the dispatcher
  pub record Completed (ctx : ℕ) (w v : Scans x S P R) : Type 0 where
    pub message : Message
    pub thread : Option LastError
    pub promise : Promise ctx message
    pub channel : v.channel ≡ happen callback started (dispatch thread message) w.channel
    pub tasks : v.tasks ≡ w.tasks

  -- one task for the context was spawned
  pub record Spawned (ctx : ℕ) (w v : Scans x S P R) : Type 0 where
    pub built : P
    pub channel : v.channel ≡ w.channel
    pub tasks : v.tasks ≡ w.tasks ++ record { built = built; callback_ctx = ctx } ∷ []

  -- what the part under the guard did: all that was to be done, or nothing before a panic
  data Attempt (Good : Scans x S P R → Type 0) (w : Scans x S P R)
      : Caught (Unit {0}) × State LastError (Scans x S P R) → Type 0 where
    finished : (t : State LastError (Scans x S P R)) → Good t.world → Attempt Good w (done tt, t)
    failed :
        (p : Payload) (t : State LastError (Scans x S P R))
        → t.world.channel ≡ w.channel
        → t.world.tasks ≡ w.tasks
        → Attempt Good w (panicked p, t)

  module _ (ctx : ℕ) (w : Scans x S P R) where
    sent_Attempt :
        {Good : Scans x S P R → Type 0} {m : Message}
        (good : (v : Scans x S P R) → Completed ctx w v → Good v)
        (s : State LastError (Scans x S P R))
        → Promise ctx m
        → s.world.channel ≡ w.channel
        → s.world.tasks ≡ w.tasks
        → Attempt Good w (on_channel callback started (dispatch_message callback started m) s)
    sent_Attempt {Good} {m} good s promise channel tasks =
        let c : State LastError Channel = record { tls = s.tls; world = s.world.channel } in
        let t = (on_channel callback started (dispatch_message callback started m) s).1 in
        subst (λ r. Attempt Good w (r, t)) (sym (dispatch_returns callback started m c))
          (finished t (
            good t.world (record {
              message = m;
              thread = s.tls;
              promise = promise;
              channel = ap (happen callback started (dispatch s.tls m)) channel;
              tasks = tasks;
            })))

    abbrev pub Outcome : Scans x S P R → Type 0
    Outcome v = Completed ctx w v ⊎ Spawned ctx w v

    error_Attempt :
        (kind : ErrorKind) (display : Caught Text) (runtime : Caught (Unit {0}))
        (scanner : Option (Handle x S)) (tls : Option LastError)
        → Attempt Outcome w (
            spawn_built callback started ctx runtime
              (err (record { kind = kind; display = display }))
              (record { tls = tls; world = record w { scanner = scanner } }))
    unfolding set_lance_error dispatch_callback
    error_Attempt kind (panicked p) runtime scanner tls = failed p _ refl refl
    error_Attempt kind (done message) runtime scanner tls =
        sent_Attempt (λ v c. inl c) _ (failure _ message) refl refl

    built_Attempt :
        (r : Caught (Result LanceError P)) (runtime : Caught (Unit {0}))
        (scanner : Option (Handle x S)) (tls : Option LastError)
        → Attempt Outcome w (
            continue r
              (spawn_built callback started ctx runtime)
              (record { tls = tls; world = record w { scanner = scanner } }))
    built_Attempt (panicked p) runtime scanner tls = failed p _ refl refl
    built_Attempt (done (err e)) runtime scanner tls =
        error_Attempt e.kind e.display runtime scanner tls
    built_Attempt (done (ok built)) (panicked p) scanner tls = failed p _ refl refl
    built_Attempt (done (ok built)) (done _) scanner tls =
        finished _ (inr (record { built = built; channel = refl; tasks = refl }))

    set_up-Attempt :
        (build : Scanner x → Caught (Result LanceError P)) (runtime : Caught (Unit {0}))
        (scanner : Option (Handle x S)) (tls : Option LastError)
        → Attempt Outcome w
            (set_up callback started ctx build runtime scanner (record { tls = tls; world = w }))
    unfolding refuse_call dispatch_callback set_last_error
    set_up-Attempt build runtime none tls = sent_Attempt (λ v c. inl c) _ (failure _ _) refl refl
    set_up-Attempt build runtime (some h) tls =
        elim h.config.poisoned
          as (λ b. Attempt Outcome w (
            (if b
                then refuse_call callback started ctx ErrorCode.panic
                    (text "scanner is poisoned by an earlier panic")
                else (do
                  put_world (λ v. record v { scanner = start_handle v.scanner })
                  built ← lift (build (mark_started h.config))
                  spawn_built callback started ctx runtime built))
              (record { tls = tls; world = w }))) [
                | true ↦ sent_Attempt (λ v c. inl c) _ (failure _ _) refl refl
                | false ↦
                    built_Attempt (build (mark_started h.config)) runtime (start_handle w.scanner)
                      tls
              ]

    -- a panic is reported, whether it is the setup or the task that panicked
    panic_Completed :
        (p : Payload) (t : State LastError (Scans x S P R))
        → t.world.channel ≡ w.channel
        → t.world.tasks ≡ w.tasks
        → Completed ctx w (report_panic callback started ctx (panicked p) t).1.world
    unfolding swallow_unwind dispatch_callback
    panic_Completed p t channel tasks = record {
      message = _;
      thread = t.tls;
      promise = failure ErrorCode.panic _;
      channel = ap (happen callback started (dispatch t.tls _)) channel;
      tasks = tasks;
    }

    reported :
        {q : Caught (Unit {0}) × State LastError (Scans x S P R)}
        → Attempt Outcome w q
        → let (r, t) = report_panic callback started ctx q.0 q.1 in (r ≡ done tt) × Outcome t.world
    unfolding swallow_unwind
    reported (finished t o) = (refl, o)
    reported (failed p t channel tasks) = (refl, inl (panic_Completed p t channel tasks))

  -- The call returns, and has dispatched one completion for its context or spawned one task for it.
  pub scan_async-Outcome :
      (ctx : ℕ) (build : Scanner x → Caught (Result LanceError P)) (runtime : Caught (Unit {0}))
      (s : State LastError (Scans x S P R))
      → let (r, t) = scan_async callback started true ctx build runtime s in
        (r ≡ done tt) × Outcome ctx s.world t.world
  unfolding scan_async scan_async_guarded scan_async_setup
  scan_async-Outcome ctx build runtime s =
      reported ctx s.world (set_up-Attempt ctx s.world build runtime s.world.scanner s.tls)

  module _ {E : Type 0} (conversion : R → Caught (Result LanceError E)) (address : ℕ) where
    reader_Attempt :
        (ctx : ℕ) (w : Scans x S P R) (r : Caught (Reader R)) (tls : Option LastError)
        → Attempt (Completed ctx w) w (
            continue r
              (λ reader. do
                put_world (λ v. record v { streams = v.streams ++ (address, reader) ∷ [] })
                dispatch_callback callback started ctx (pos 0) address none)
              (record { tls = tls; world = w }))
    unfolding dispatch_callback
    reader_Attempt ctx w (panicked p) tls = failed p _ refl refl
    reader_Attempt ctx w (done reader) tls =
        sent_Attempt ctx w (λ v c. c) _ (success address) refl refl

    failed_Attempt :
        (ctx : ℕ) (w : Scans x S P R) (kind : ErrorKind) (display : Caught Text)
        (tls : Option LastError)
        → Attempt (Completed ctx w) w (
            export_stream callback started conversion address ctx
              (err (record { kind = kind; display = display }))
              (record { tls = tls; world = w }))
    unfolding dispatch_callback
    failed_Attempt ctx w kind (panicked p) tls = failed p _ refl refl
    failed_Attempt ctx w kind (done message) tls =
        sent_Attempt ctx w (λ v c. c) _ (failure _ message) refl refl

    stream_Attempt :
        (ctx : ℕ) (w : Scans x S P R) (r : Caught (Result LanceError R)) (tls : Option LastError)
        → Attempt (Completed ctx w) w (
            continue r
              (export_stream callback started conversion address ctx)
              (record { tls = tls; world = w }))
    stream_Attempt ctx w (panicked p) tls = failed p _ refl refl
    stream_Attempt ctx w (done (err e)) tls = failed_Attempt ctx w e.kind e.display tls
    stream_Attempt ctx w (done (ok stream)) tls =
        reader_Attempt ctx w (new stream (conversion stream) (is_poisoned w.scanner)) tls

    task_reported :
        (ctx : ℕ) (w : Scans x S P R) {q : Caught (Unit {0}) × State LastError (Scans x S P R)}
        → Attempt (Completed ctx w) w q
        → Completed ctx w
            (report_task_panic callback started conversion address ctx q.0 q.1).1.world
    unfolding swallow_unwind
    task_reported ctx w (finished t o) = o
    task_reported ctx w (failed p t channel tasks) = panic_Completed ctx w p t channel tasks

    -- The task hands one completion for its context to the dispatcher.
    pub run_task-Completed :
        (t : Task P) (try_into_stream : P → Caught (Result LanceError R))
        (s : State LastError (Scans x S P R))
        → Completed t.callback_ctx s.world
            (run_task callback started conversion address t try_into_stream s).1.world
    unfolding run_task
    run_task-Completed t try_into_stream s =
        task_reported t.callback_ctx s.world
          (stream_Attempt t.callback_ctx s.world (try_into_stream t.built) s.tls)
