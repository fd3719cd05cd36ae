-- ===== src/Scanner/Async/Once.antt =====
-- Every asynchronous scan (src/scanner.rs) completes once.
use lance_c.Prelude.{
  ℕ, ◌+◌, Result, Option, none, some, Bool, true, false, List, [], ◌∷◌, All, All-append, ◌≡◌, refl,
  sym, ◌∙◌, subst, inl, inr, arith,
}
use lance_c.Ffi.Outcome.{Caught}
use lance_c.Ffi.LastError.{LanceError, LastError, set_last_error}
use lance_c.Scanner.Config.{External}
use lance_c.Scanner.Handle.{Handle}
use lance_c.Dispatcher.{
  Message, Channel, Callback, dispatch_message, receive, dispatch, turn, happen,
}
use lance_c.Dispatcher.Order.{reported, expected, delivered}
use lance_c.Scanner.Async.{Task, Scans, scan_async}
use lance_c.Scanner.Async.Promise.{Promise, Completed, scan_async-Outcome, run_task-Completed}
use lance_c.Scanner.Async.Schedule.{
  AsyncCall, AsyncStep, scan, run, serve, host, take_out, run_taken, async_step, async_steps,
  entered, queued, waiting, called, fresh,
}
use lance_c.Scanner.Async.Accounts.{total, step_total}

-- What a callback finds: a stream with an empty error slot, or no stream with the error in the slot.
abbrev pub Told : Message × Option LastError → Type 0
Told (m, slot) = ((ctx : ℕ) × Promise ctx m) × (slot ≡ reported m.error)

abbrev Promised : Message → Type 0
Promised m = (ctx : ℕ) × Promise ctx m

record Honest (c : Channel) : Type 0 where
  told : All Told c.invoked
  promised : All Promised c.queue

module _ (callback : Callback) (started : Bool) where
  dispatch-Honest :
      (tls : Option LastError) (m : Message) (c : Channel)
      → Promised m
      → Honest c
      → Honest (happen callback started (dispatch tls m) c)
  unfolding dispatch_message
  dispatch-Honest tls m c p h = sent started
    where
      sent : (b : Bool) → Honest (happen callback b (dispatch tls m) c)
      sent true = record {
        told = h.told;
        promised = All-append Promised c.queue (m ∷ []) h.promised (p, tt);
      }
      sent false = subst Honest (sym (delivered callback m tls c)) (record {
        told = All-append Told c.invoked (expected m ∷ []) h.told ((p, refl), tt);
        promised = h.promised;
      })

  turn-Honest :
      (tls : Option LastError) (q : List Message) (i : List (Message × Option LastError))
      → Honest (record { queue = q; invoked = i })
      → Honest (happen callback started (turn tls) (record { queue = q; invoked = i }))
  unfolding receive
  turn-Honest tls [] i h = h
  turn-Honest tls (m ∷ ms) i h =
      subst Honest (sym (delivered callback m tls (record { queue = ms; invoked = i }))) (record {
        told = All-append Told i (expected m ∷ []) h.told ((h.promised.0, refl), tt);
        promised = h.promised.1;
      })

  module _ {x : External} {S P R : Type 0} where
    Completed-Honest :
        (n : ℕ) (w v : Scans x S P R)
        → Completed callback started n w v
        → Honest w.channel
        → Honest v.channel
    Completed-Honest n w v c h =
        subst Honest (sym c.channel) (dispatch-Honest c.thread c.message w.channel (n, c.promise) h)

    scan-Honest :
        (c : AsyncCall x P) (w : Scans x S P R) (present : Bool)
        → Honest w.channel
        → Honest
            (scan_async callback started present c.callback_ctx c.build c.runtime
              (record { tls = c.thread; world = w })).1.world.channel
    unfolding scan_async set_last_error
    scan-Honest c w false h = h
    scan-Honest c w true h =
        elim ((scan_async-Outcome callback started c.callback_ctx c.build c.runtime
          (record { tls = c.thread; world = w })).1) [
            | inl d ↦ Completed-Honest c.callback_ctx w _ d h
            | inr d ↦ subst Honest (sym d.channel) h
          ]

    module _ {E : Type 0} where
      run-Honest :
          (try_into_stream : P → Caught (Result LanceError R))
          (conversion : R → Caught (Result LanceError E)) (address : ℕ) (tls : Option LastError)
          (w : Scans x S P R) (o : Option (Task P × List (Task P)))
          → Honest w.channel
          → Honest (run_taken callback started try_into_stream conversion address tls w o).channel
      run-Honest try_into_stream conversion address tls w none h = h
      run-Honest try_into_stream conversion address tls w (some (t, others)) h =
          Completed-Honest t.callback_ctx (record w { tasks = others }) _
            (run_task-Completed callback started conversion address t try_into_stream
              (record { tls = tls; world = record w { tasks = others } }))
            h

      step-Honest :
          (e : AsyncStep x S P R E) (w : Scans x S P R)
          → Honest w.channel
          → Honest (async_step callback started e w).channel
      step-Honest (scan c) w h = scan-Honest c w c.has_callback h
      step-Honest (run tls k try_into_stream conversion address) w h =
          run-Honest try_into_stream conversion address tls w (take_out k w.tasks) h
      step-Honest (serve tls) w h = turn-Honest tls w.channel.queue w.channel.invoked h
      step-Honest (host scanner) w h = h

      pub steps_total :
          (ctx : ℕ) (es : List (AsyncStep x S P R E)) (w : Scans x S P R)
          → total ctx (async_steps callback started es w) ≡ total ctx w + called ctx es
      steps_total ctx [] w = ground arith
      steps_total ctx (e ∷ es) w =
          let step = step_total callback started ctx e w in
          steps_total ctx es (async_step callback started e w) ∙ ground (arith, step)

      steps-Honest :
          (es : List (AsyncStep x S P R E)) (w : Scans x S P R)
          → Honest w.channel
          → Honest (async_steps callback started es w).channel
      steps-Honest [] w h = h
      steps-Honest (e ∷ es) w h =
          steps-Honest es (async_step callback started e w) (step-Honest e w h)

      -- In every order of calls, tasks, turns of the dispatcher and changes of the scanner, whatever
      -- panics: a context was given to as many calls with a callback as there are callbacks entered
      -- for it, completions queued for it, and tasks waiting for it. Each callback finds a stream and
      -- an empty error slot, or no stream and its own error in the slot.
      pub scans_once :
          (es : List (AsyncStep x S P R E)) (scanner : Option (Handle x S)) (ctx : ℕ)
          → let w = async_steps callback started es (fresh scanner) in
            ((entered ctx w.channel + queued ctx w.channel) + waiting ctx w.tasks ≡ called ctx es)
            × All Told w.channel.invoked
      scans_once es scanner ctx = (
        steps_total ctx es (fresh scanner) ∙ ground arith,
        (steps-Honest es (fresh scanner) (record { told = tt; promised = tt })).told,
      )
