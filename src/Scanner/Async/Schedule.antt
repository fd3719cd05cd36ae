-- ===== src/Scanner/Async/Schedule.antt =====
-- Asynchronous scans (src/scanner.rs) in any order: calls, tasks that run on other threads, turns of the dispatcher,
-- and whatever else the host does to the scanner in between.
use lance_c.Prelude.{
  ℕ, zero, suc, ◌+◌, ◌==◌, Result, Option, none, some, Bool, List, [], ◌∷◌, map, if◌then◌else◌,
}
use lance_c.Ffi.Outcome.{Caught}
use lance_c.Ffi.LastError.{LanceError, LastError}
use lance_c.Scanner.Config.{External, Scanner}
use lance_c.Scanner.Handle.{Handle}
use lance_c.Dispatcher.{Channel, Callback, turn, happen}
use lance_c.Dispatcher.Order.{idle}
use lance_c.Scanner.Async.{Task, Scans, scan_async, run_task}

pub record AsyncCall (x : External) (P : Type 0) : Type 0 where
  pub thread : Option LastError
  pub has_callback : Bool
  pub callback_ctx : ℕ
  pub build : Scanner x → Caught (Result LanceError P)
  pub runtime : Caught (Unit {0})

-- A task is named by its place among those that wait.
pub data AsyncStep (x : External) (S P R E : Type 0) : Type 0 where
  scan : AsyncCall x P → AsyncStep x S P R E
  run :
      Option LastError
      → ℕ
      → (P → Caught (Result LanceError R))
      → (R → Caught (Result LanceError E))
      → ℕ
      → AsyncStep x S P R E
  serve : Option LastError → AsyncStep x S P R E
  host : Option (Handle x S) → AsyncStep x S P R E

module _ {A : Type 0} where
  abbrev pub with_first : A → Option (A × List A) → Option (A × List A)
  with_first x none = none
  with_first x (some (y, ys)) = some (y, x ∷ ys)

  -- one member of a list and the others
  abbrev pub take_out : ℕ → List A → Option (A × List A)
  take_out k [] = none
  take_out zero (x ∷ xs) = some (x, xs)
  take_out (suc k) (x ∷ xs) = with_first x (take_out k xs)

module _ {x : External} {S P R E : Type 0} (callback : Callback) (started : Bool) where
  abbrev pub run_taken :
      (P → Caught (Result LanceError R))
      → (R → Caught (Result LanceError E))
      → ℕ
      → Option LastError
      → Scans x S P R
      → Option (Task P × List (Task P))
      → Scans x S P R
  run_taken try_into_stream conversion address tls w none = w
  run_taken try_into_stream conversion address tls w (some (t, others)) =
      (run_task callback started conversion address t try_into_stream
        (record { tls = tls; world = record w { tasks = others } })).1.world

  abbrev pub async_step : AsyncStep x S P R E → Scans x S P R → Scans x S P R
  async_step (scan c) w =
      (scan_async callback started c.has_callback c.callback_ctx c.build c.runtime
        (record { tls = c.thread; world = w })).1.world
  async_step (run tls k try_into_stream conversion address) w =
      run_taken try_into_stream conversion address tls w (take_out k w.tasks)
  async_step (serve tls) w = record w { channel = happen callback started (turn tls) w.channel }
  async_step (host scanner) w = record w { scanner = scanner }

  abbrev pub async_steps : List (AsyncStep x S P R E) → Scans x S P R → Scans x S P R
  async_steps [] w = w
  async_steps (e ∷ es) w = async_steps es (async_step e w)

-- how often a number is in a list
abbrev pub one : ℕ → ℕ → ℕ
one n m = if m == n then 1 else 0

abbrev pub times : ℕ → List ℕ → ℕ
times n [] = 0
times n (m ∷ ms) = one n m + times n ms

-- how often a context is among the callbacks that were entered, the completions that are queued, and
-- the tasks that wait
abbrev pub entered : ℕ → Channel → ℕ
entered ctx c = times ctx (map (λ i. i.0.callback_ctx) c.invoked)

abbrev pub queued : ℕ → Channel → ℕ
queued ctx c = times ctx (map (λ m. m.callback_ctx) c.queue)

abbrev pub waiting : {P : Type 0} → ℕ → List (Task P) → ℕ
waiting ctx tasks = times ctx (map (λ t. t.callback_ctx) tasks)

-- how often a context is given to a call, with a callback
abbrev pub called_by : {x : External} {S P R E : Type 0} → ℕ → AsyncStep x S P R E → ℕ
called_by ctx (scan c) = if c.has_callback then one ctx c.callback_ctx else 0
called_by ctx _ = 0

abbrev pub called : {x : External} {S P R E : Type 0} → ℕ → List (AsyncStep x S P R E) → ℕ
called ctx [] = 0
called ctx (e ∷ es) = called_by ctx e + called ctx es

-- a scanner, with nothing started
abbrev pub fresh : {x : External} {S P R : Type 0} → Option (Handle x S) → Scans x S P R
fresh scanner = record { scanner = scanner; channel = idle; tasks = []; streams = [] }
