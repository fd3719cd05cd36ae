-- ===== src/Scanner/Async/Examples.antt =====
-- Three asynchronous scans of one scanner: one ends in a stream, one panics in its task, and one is
-- refused, since the panic has poisoned the scanner.
use lance_c.Prelude.{
  ℕ, ◌+◌, text, none, some, true, List, [], ◌∷◌, ok, Option, length, replicate, All, ◌≡◌,
}
use lance_c.Ffi.Outcome.{done, panicked, Payload}
use lance_c.Scanner.Config.{new}
use lance_c.Scanner.Small.{small}
use lance_c.Scanner.Handle.{Handle}
use lance_c.Dispatcher.{Callback}
use lance_c.Scanner.Async.Schedule.{
  AsyncStep, scan, run, serve, async_steps, entered, queued, waiting, called, fresh,
}
use lance_c.Scanner.Async.Once.{Told, scans_once}
use lance_c.Scanner.Async.Complete.{scans_complete}

-- the host's callback takes the error and then unwinds
abbrev unwinding : Callback
unwinding m tls = (panicked Payload.other, none)

abbrev scanner : Option (Handle small ℕ)
scanner = some (record { config = new {x = small} 7; stream = none })

abbrev start : ℕ → AsyncStep small ℕ ℕ ℕ ℕ
start ctx = scan (record {
  thread = none;
  has_callback = true;
  callback_ctx = ctx;
  build = λ c. done (ok ctx);
  runtime = done tt;
})

abbrev steps : List (AsyncStep small ℕ ℕ ℕ ℕ)
steps =
    start 1
    ∷ start 2
    ∷ run none 1 (λ p. panicked (Payload.str (text "boom"))) (λ r. done (ok r)) 64
    ∷ start 2
    ∷ run none 0 (λ p. done (ok p)) (λ r. done (ok r)) 64
    ∷ serve none
    ∷ []

scans_once_example :
    let w = async_steps unwinding true steps (fresh scanner) in
    ((entered 2 w.channel + queued 2 w.channel) + waiting 2 w.tasks ≡ called 2 steps)
    × All Told w.channel.invoked
scans_once_example = scans_once unwinding true steps scanner 2

scans_complete_example :
    let w = async_steps unwinding true steps (fresh scanner) in
    let v =
      async_steps unwinding true
        (replicate (length w.tasks) (run none 0 (λ p. done (ok p)) (λ r. done (ok r)) 64))
        w in
    let turn : AsyncStep small ℕ ℕ ℕ ℕ = serve none in
    let u = async_steps unwinding true (replicate (length v.channel.queue) turn) v in
    entered 2 u.channel ≡ called 2 steps
scans_complete_example =
    scans_complete unwinding true steps scanner 2 none none (λ p. done (ok p)) (λ r. done (ok r)) 64
