-- ===== src/Dispatcher.antt =====
-- The completion of asynchronous calls (src/async_dispatcher.rs): a queue that one thread serves, and
-- the fallback where that thread could not be started. The channel is the standard library's
-- `mpsc`: a send fails only if the receiver is gone, and the receiver lives in the dispatcher's loop,
-- which goes on as long as the static sender does. The host's callback is a parameter.
pub mod Order
mod Examples
use lance_c.Prelude.{ℕ, ℤ, Text, Option, none, some, Bool, true, false, List, [], ◌∷◌, ◌++◌}
use lance_c.Ffi.Outcome.{Caught, Act, State, pure, catch_unwind, gets_world, put_world, ◌>>=◌, ◌>>◌}
use lance_c.Ffi.LastError.{ErrorCode, LastError, set_last_error, clear_last_error}

-- `DispatcherMessage`; `callback_ctx` and `result` are addresses
pub record Message : Type 0 where
  pub callback_ctx : ℕ
  pub status : ℤ
  pub result : ℕ
  pub error : Option (ErrorCode × Text)

-- `invoked` lists the callbacks that were entered, each with the error slot of the thread then
pub record Channel : Type 0 where
  pub queue : List Message
  pub invoked : List (Message × Option LastError)

-- the host's callback: what it makes of the error slot, and whether it unwinds
abbrev pub Callback : Type 0
Callback = Message → Option LastError → Caught (Unit {0}) × Option LastError

abbrev pub install : Option (ErrorCode × Text) → Act LastError Channel (Unit {0})
install none = clear_last_error
install (some (code, message)) = set_last_error code message

module _ (callback : Callback) where
  abbrev pub invoke : Message → Act LastError Channel (Unit {0})
  invoke m s =
      let (r, t) = callback m s.tls in
      (
        r,
        record {
          tls = t;
          world = record (s.world) { invoked = s.world.invoked ++ (m, s.tls) ∷ [] };
        },
      )

  unfoldable pub deliver_message : Message → Act LastError Channel (Unit {0})
  unfolding set_last_error clear_last_error
  deliver_message m = do install m.error; outcome ← catch_unwind (invoke m); pure tt

  -- `dispatch_message`; the flag says whether the dispatcher could be started
  unfoldable pub dispatch_message : Bool → Message → Act LastError Channel (Unit {0})
  unfolding deliver_message
  dispatch_message true m = put_world (λ c. record c { queue = c.queue ++ m ∷ [] })
  dispatch_message false m = deliver_message m

  abbrev pub serve : List Message → Act LastError Channel (Unit {0})
  serve [] = pure tt
  serve (m ∷ ms) = do put_world (λ c. record c { queue = ms }); deliver_message m

  -- one turn of the dispatcher's loop, which waits where the queue is empty
  unfoldable pub receive : Act LastError Channel (Unit {0})
  unfolding deliver_message
  receive = do queue ← gets_world (λ c. c.queue); serve queue

-- What happens, on a thread whose error slot is given: a completion is dispatched, or the
-- dispatcher takes one turn.
pub data Event : Type 0 where
  dispatch : Option LastError → Message → Event
  turn : Option LastError → Event

module _ (callback : Callback) (started : Bool) where
  abbrev pub happen : Event → Channel → Channel
  happen (dispatch tls m) c =
      (dispatch_message callback started m (record { tls = tls; world = c })).1.world
  happen (turn tls) c = (receive callback (record { tls = tls; world = c })).1.world

  unfoldable pub run : List Event → Channel → Channel
  unfolding dispatch_message receive
  run [] c = c
  run (e ∷ es) c = run es (happen e c)
