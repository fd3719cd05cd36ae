-- ===== src/Scanner/Async/Complete.antt =====
-- Asynchronous scans (src/scanner.rs) that were started are completed.
use lance_c.Prelude.{
  ℕ, zero, suc, ◌+◌, Result, Option, Bool, List, [], ◌∷◌, length, replicate, ◌≡◌, refl, sym, ap,
  ◌∙◌, arith,
}
use lance_c.Ffi.Outcome.{Caught}
use lance_c.Ffi.LastError.{LanceError, LastError}
use lance_c.Scanner.Config.{External}
use lance_c.Scanner.Handle.{Handle}
use lance_c.Dispatcher.{Message, Channel, Callback, receive, turn, happen}
use lance_c.Dispatcher.Order.{delivered}
use lance_c.Scanner.Async.{Task, Scans}
use lance_c.Scanner.Async.Promise.{run_task-Completed}
use lance_c.Scanner.Async.Schedule.{
  AsyncStep, run, serve, async_step, async_steps, entered, called, called_by, fresh,
}
use lance_c.Scanner.Async.Accounts.{total}
use lance_c.Scanner.Async.Once.{steps_total}

-- a turn of the dispatcher shortens the queue
turn_queue :
    (callback : Callback) (started : Bool) (tls : Option LastError) (m : Message)
    (ms : List Message) (c : Channel)
    → c.queue ≡ m ∷ ms
    → (happen callback started (turn tls) c).queue ≡ ms
unfolding receive
turn_queue callback started tls m ms c h =
    rw h (ap (λ c. c.queue) (delivered callback m tls (record { queue = ms; invoked = c.invoked })))

settled :
    {x : External} {S P R : Type 0} (ctx : ℕ) (w : Scans x S P R)
    → w.tasks ≡ []
    → w.channel.queue ≡ []
    → total ctx w ≡ entered ctx w.channel
settled ctx w h k = rw (h, k) (ground arith)

accounted : (a b c : ℕ) → b ≡ 0 → a ≡ c → a + b ≡ c
accounted a b c h k = ground (arith, h, k)

module _ {x : External} {S P R E : Type 0} where
  uncalled :
      (ctx : ℕ) (e : AsyncStep x S P R E)
      → called_by ctx e ≡ 0
      → (n : ℕ) → called ctx (replicate n e) ≡ 0
  uncalled ctx e h zero = refl
  uncalled ctx e h (suc n) = ground (arith, h, uncalled ctx e h n)

module _ (callback : Callback) (started : Bool) {x : External} {S P R E : Type 0} where
  -- as many steps as a list is long use it up, if each takes its head off
  exhausted :
      {A : Type 0} (part : Scans x S P R → List A) (e : AsyncStep x S P R E)
      → ((a : A) (bs : List A) (w : Scans x S P R)
          → part w ≡ a ∷ bs
          → part (async_step callback started e w) ≡ bs)
      → (bs : List A) (w : Scans x S P R) → part w ≡ bs
      → part (async_steps callback started (replicate (length bs) e) w) ≡ []
  exhausted part e shorter [] w h = h
  exhausted part e shorter (a ∷ bs) w h =
      exhausted part e shorter bs (async_step callback started e w) (shorter a bs w h)

  kept :
      {A : Type 0} (part : Scans x S P R → A) (e : AsyncStep x S P R E)
      → ((w : Scans x S P R) → part (async_step callback started e w) ≡ part w)
      → (n : ℕ) (w : Scans x S P R) → part (async_steps callback started (replicate n e) w) ≡ part w
  kept part e same zero w = refl
  kept part e same (suc n) w = kept part e same n (async_step callback started e w) ∙ same w

  task_run :
      (tls : Option LastError) (try_into_stream : P → Caught (Result LanceError R))
      (conversion : R → Caught (Result LanceError E)) (address : ℕ) (t : Task P)
      (ts : List (Task P)) (w : Scans x S P R)
      → w.tasks ≡ t ∷ ts
      → (async_step callback started (run tls 0 try_into_stream conversion address) w).tasks ≡ ts
  task_run tls try_into_stream conversion address t ts w h = rw h (
      (run_task-Completed callback started conversion address t try_into_stream
        (record { tls = tls; world = record w { tasks = ts } })).tasks)

  -- Let each of the tasks that wait run, whatever it meets, and then the dispatcher take as many
  -- turns as completions are queued: every context has been called back as often as it was given to
  -- a call.
  pub scans_complete :
      (es : List (AsyncStep x S P R E)) (scanner : Option (Handle x S)) (ctx : ℕ)
      (tls thread : Option LastError) (try_into_stream : P → Caught (Result LanceError R))
      (conversion : R → Caught (Result LanceError E)) (address : ℕ)
      → let w = async_steps callback started es (fresh scanner) in
        let v =
          async_steps callback started
            (replicate (length w.tasks) (run tls 0 try_into_stream conversion address))
            w in
        let turn : AsyncStep x S P R E = serve thread in
        let u = async_steps callback started (replicate (length v.channel.queue) turn) v in
        entered ctx u.channel ≡ called ctx es
  scans_complete es scanner ctx tls thread try_into_stream conversion address =
      let w = async_steps callback started es (fresh scanner) in
      let task : AsyncStep x S P R E = run tls 0 try_into_stream conversion address in
      let turn : AsyncStep x S P R E = serve thread in
      let v = async_steps callback started (replicate (length w.tasks) task) w in
      let u = async_steps callback started (replicate (length v.channel.queue) turn) v in
      let no_tasks =
        kept (λ w. w.tasks) turn (λ w. refl) (length v.channel.queue) v
        ∙ exhausted (λ w. w.tasks) task (task_run tls try_into_stream conversion address) w.tasks w
            refl in
      let no_queue =
        exhausted (λ w. w.channel.queue) turn
          (λ m ms w. turn_queue callback started thread m ms w.channel) v.channel.queue v refl in
      let turned = steps_total callback started ctx (replicate (length v.channel.queue) turn) v in
      let ran = steps_total callback started ctx (replicate (length w.tasks) task) w in
      let begun = steps_total callback started ctx es (fresh {P = P} {R = R} scanner) in
      sym (settled ctx u no_tasks no_queue)
      ∙ (turned
          ∙ accounted _ _ _ (uncalled ctx turn refl (length v.channel.queue)) (
              ran
              ∙ accounted _ _ _ (uncalled ctx task refl (length w.tasks)) (begun ∙ ground arith)))
