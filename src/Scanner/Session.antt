-- ===== src/Scanner/Session.antt =====
-- A client's session with one scanner handle: any calls of the C interface, in any order.
pub mod Keeps
pub mod Parts
pub mod Entries
pub mod Validity
use lance_c.Prelude.{ℕ, ℤ, Option, none, some, Bool, true, false, List, [], ◌∷◌, Result}
use lance_c.Ffi.Outcome.{Caught, done, State, Act, pure, ◌>>=◌, ◌>>◌}
use lance_c.Ffi.LastError.{LanceError, LastError}
use lance_c.Scanner.Config.{External, Scanner}
use lance_c.Scanner.Calls.{Setting}
use lance_c.Scanner.Handle
use lance_c.Scanner.Handle.{Handle, Memory}
use lance_c.Scanner.Iterate
use lance_c.Scanner.Iterate.{Engine, Call}

pub data Request (x : External) : Type 0 where
  configure : Setting x → Request x
  next : Request x
  poll_next : Bool → Request x
  to_arrow_stream : Request x
  close : Request x

-- `drop_handle` is what dropping a closed handle does, and `export` makes an exported stream. The
-- out pointer of a call may be NULL or not.
module _ {x : External} {S B : Type 0} (engine : Engine x S B)
    (export : Scanner x → Caught (Result LanceError B))
    (drop_handle : Handle x S → Caught (Unit {0})) where
  abbrev pub perform : Request x → Call x S B (Unit {0})
  perform (Request.configure c) = do Handle.configure c; pure tt
  perform Request.next = do Iterate.next engine; pure tt
  perform (Request.poll_next has_waker) = do Iterate.poll_next engine has_waker; pure tt
  perform Request.to_arrow_stream = do Iterate.to_arrow_stream export; pure tt
  perform Request.close = Handle.close drop_handle

  -- each call with its out pointer
  unfoldable pub session :
      List (Request x × Option (Option B))
      → State LastError (Memory x S B)
      → State LastError (Memory x S B)
  session [] s = s
  session ((r, out) ∷ rs) s =
      session rs (perform r (record s { world = record (s.world) { out = out } })).1
