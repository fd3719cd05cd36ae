-- ===== src/Scanner/Async/Accounts.antt =====
-- Each context is accounted for at every step of asynchronous scans (src/scanner.rs).
use lance_c.Prelude.{
  ℕ, zero, suc, ◌+◌, Result, Option, none, some, Bool, true, false, List, [], ◌∷◌, ◌++◌, map, ◌≡◌,
  refl, ◌∙◌, inl, inr, arith, if◌then◌else◌,
}
use lance_c.Ffi.Outcome.{Caught}
use lance_c.Ffi.LastError.{LanceError, LastError, set_last_error}
use lance_c.Scanner.Config.{External}
use lance_c.Dispatcher.{
  Message, Channel, Callback, dispatch_message, receive, dispatch, turn, happen,
}
use lance_c.Dispatcher.Order.{expected, delivered}
use lance_c.Scanner.Async.{Task, Scans, scan_async}
use lance_c.Scanner.Async.Promise.{
  Promise, success, failure, Completed, Spawned, scan_async-Outcome, run_task-Completed,
}
use lance_c.Scanner.Async.Schedule.{
  AsyncCall, AsyncStep, scan, run, serve, host, with_first, take_out, run_taken, async_step, one,
  times, entered, queued, waiting, called_by,
}

times-map-append :
    {A : Type 0} (ctx : ℕ) (f : A → ℕ) (xs : List A) (y : A)
    → times ctx (map f (xs ++ y ∷ [])) ≡ times ctx (map f xs) + one ctx (f y)
times-map-append ctx f [] y = ground arith
times-map-append ctx f (x ∷ xs) y = ground (arith, times-map-append ctx f xs y)

-- taking one task out takes one context out
abbrev pub Counted : {P : Type 0} → ℕ → List (Task P) → Option (Task P × List (Task P)) → Type 0
Counted ctx ts none = Unit
Counted ctx ts (some (t, rest)) = waiting ctx ts ≡ one ctx t.callback_ctx + waiting ctx rest

module _ {P : Type 0} (ctx : ℕ) where
  with_first-Counted :
      (u : Task P) (us : List (Task P)) (o : Option (Task P × List (Task P)))
      → Counted ctx us o
      → Counted ctx (u ∷ us) (with_first u o)
  with_first-Counted u us none h = tt
  with_first-Counted u us (some (t, rest)) h = ground (arith, h)

  pub take_out-Counted : (k : ℕ) (ts : List (Task P)) → Counted ctx ts (take_out k ts)
  take_out-Counted k [] = tt
  take_out-Counted zero (u ∷ us) = refl
  take_out-Counted (suc k) (u ∷ us) =
      with_first-Counted u us (take_out k us) (take_out-Counted k us)

-- the completions of a context on a channel, delivered or not
abbrev pub known : ℕ → Channel → ℕ
known ctx c = entered ctx c + queued ctx c

module _ (callback : Callback) where
  pub dispatch_counts :
      (started : Bool) (ctx : ℕ) (tls : Option LastError) (m : Message) (c : Channel)
      → known ctx (happen callback started (dispatch tls m) c)
        ≡ known ctx c + one ctx m.callback_ctx
  unfolding dispatch_message
  dispatch_counts true ctx tls m c =
      ground (arith, times-map-append ctx (λ n. n.callback_ctx) c.queue m)
  dispatch_counts false ctx tls m c =
      rw (delivered callback m tls c)
        (ground (arith, times-map-append ctx (λ i. i.0.callback_ctx) c.invoked (expected m)))

  pub turn_counts :
      (started : Bool) (ctx : ℕ) (tls : Option LastError) (q : List Message)
      (i : List (Message × Option LastError))
      → known ctx (happen callback started (turn tls) (record { queue = q; invoked = i }))
        ≡ known ctx (record { queue = q; invoked = i })
  unfolding receive
  turn_counts started ctx tls [] i = refl
  turn_counts started ctx tls (m ∷ ms) i =
      rw (delivered callback m tls (record { queue = ms; invoked = i }))
        (ground (arith, times-map-append ctx (λ i. i.0.callback_ctx) i (expected m)))

-- all that is owed or was delivered to a context
abbrev pub total : {x : External} {S P R : Type 0} → ℕ → Scans x S P R → ℕ
total ctx w = known ctx w.channel + waiting ctx w.tasks

Promise-ctx : {ctx : ℕ} {m : Message} → Promise ctx m → m.callback_ctx ≡ ctx
Promise-ctx (success address) = refl
Promise-ctx (failure code message) = refl

module _ {x : External} {S P R : Type 0} (callback : Callback) (started : Bool) (ctx : ℕ) where
  Completed-total :
      (n : ℕ) (w v : Scans x S P R)
      → Completed callback started n w v
      → total ctx v ≡ total ctx w + one ctx n
  Completed-total n w v c =
      rw (c.channel, c.tasks)
        (ground (
          arith,
          dispatch_counts callback started ctx c.thread c.message w.channel,
          Promise-ctx c.promise,
        ))

  Spawned-total :
      (n : ℕ) (w v : Scans x S P R)
      → Spawned callback started n w v
      → total ctx v ≡ total ctx w + one ctx n
  Spawned-total n w v c =
      rw (c.channel, c.tasks)
        (ground (
          arith,
          times-map-append ctx (λ t. t.callback_ctx) w.tasks
              (record { built = c.built; callback_ctx = n }),
        ))

  scan_total :
      (c : AsyncCall x P) (w : Scans x S P R) (present : Bool)
      → total ctx
          (scan_async callback started present c.callback_ctx c.build c.runtime
            (record { tls = c.thread; world = w })).1.world
        ≡ total ctx w + (if present then one ctx c.callback_ctx else 0)
  unfolding scan_async set_last_error
  scan_total c w false = ground arith
  scan_total c w true =
      elim ((scan_async-Outcome callback started c.callback_ctx c.build c.runtime
        (record { tls = c.thread; world = w })).1) [
          | inl d ↦ Completed-total c.callback_ctx w _ d
          | inr d ↦ Spawned-total c.callback_ctx w _ d
        ]

  module _ {E : Type 0} where
    run_total :
        (try_into_stream : P → Caught (Result LanceError R))
        (conversion : R → Caught (Result LanceError E)) (address : ℕ) (tls : Option LastError)
        (w : Scans x S P R) (o : Option (Task P × List (Task P)))
        → Counted ctx w.tasks o
        → total ctx (run_taken callback started try_into_stream conversion address tls w o)
          ≡ total ctx w
    run_total try_into_stream conversion address tls w none h = refl
    run_total try_into_stream conversion address tls w (some (t, others)) h = ground (
      arith,
      h,
      Completed-total t.callback_ctx (record w { tasks = others }) _
          (run_task-Completed callback started conversion address t try_into_stream
            (record { tls = tls; world = record w { tasks = others } })),
    )

    pub step_total :
        (e : AsyncStep x S P R E) (w : Scans x S P R)
        → total ctx (async_step callback started e w) ≡ total ctx w + called_by ctx e
    step_total (scan c) w = scan_total c w c.has_callback ∙ ground arith
    step_total (run tls k try_into_stream conversion address) w =
        run_total try_into_stream conversion address tls w (take_out k w.tasks)
          (take_out-Counted ctx k w.tasks)
        ∙ ground arith
    step_total (serve tls) w =
        ground (arith, turn_counts callback started ctx tls w.channel.queue w.channel.invoked)
    step_total (host scanner) w = ground arith
