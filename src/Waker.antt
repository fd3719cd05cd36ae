-- ===== src/Waker.antt =====
-- The wakers that `lance_scanner_poll_next` hands to a stream, and their retirement when the scanner
-- is closed (src/scanner.rs, `CWakerContext` and `PollWakerRegistry`). A lock-protected section is
-- one step; between two such sections of one thread, the other threads may do any steps.
pub mod Once
pub mod Retire
mod Examples
use lance_c.Prelude.{
  update, ℕ, Option, none, some, Bool, true, false, not, ◌&&◌, ◌||◌, List, [], ◌∷◌, ◌++◌, ◌≡◌, ◌==◌,
  if◌then◌else◌, any,
}

-- `live`: a waker of the context is left, so that its `Weak` reference can be upgraded.
-- `used`: the context was made; each call of `make_raw_waker` makes a fresh one.
pub record Context : Type 0 where
  pub fired : Bool
  pub cancelled : Bool
  pub active : Bool
  pub live : Bool
  pub used : Bool

-- Where the one closing thread stands in `retire_and_wait`: the registrations still to cancel and
-- all that were drained, then those still to wait for.
pub data Closer : Type 0 where
  idle : Closer
  cancelling : List ℕ → List ℕ → Closer
  waiting : List ℕ → Closer
  closed : Closer

pub record Wakers : Type 0 where
  pub context : ℕ → Context
  pub retired : Bool
  pub registrations : List ℕ
  pub closer : Closer

abbrev pub fresh : Context
fresh = record { fired = false; cancelled = false; active = false; live = true; used = true }

abbrev pub unmade : Context
unmade = record { fired = false; cancelled = false; active = false; live = false; used = false }

abbrev pub init : Wakers
init = record { context = λ _. unmade; retired = false; registrations = []; closer = idle }

-- `CWakerContext::cancel`
abbrev pub cancel : Context → Context
cancel c = record c { cancelled = true }

abbrev pub mem : ℕ → List ℕ → Bool
mem j = any (λ i. i == j)

-- `Vec::retain` of the registrations whose context is still referenced
pub retain : (ℕ → Context) → List ℕ → List ℕ
retain f [] = []
retain f (i ∷ is) = let rest = retain f is in if (f i).live then i ∷ rest else rest

-- `make_raw_waker` with `PollWakerRegistry::register`: a registry that is retired cancels the
-- context before any waker of it exists.
pub register : ℕ → Wakers → Wakers
unfolding retain
register i s =
    let kept = retain s.context s.registrations in
    if s.retired
    then record s { context = update s.context i (cancel fresh); registrations = kept }
    else record s { context = update s.context i fresh; registrations = kept ++ i ∷ [] }

-- the first locked section of `wake_once`: `true` if the callback is entered
pub enter : Context → Context × Bool
enter c =
    if c.cancelled || c.fired then (c, false) else (record c { fired = true; active = true }, true)

-- `retire_and_wait` drains the registry; `Weak::upgrade` fails where no waker is left
pub drain : Wakers → Wakers
unfolding retain
drain s =
    let registrations = retain s.context s.registrations in
    record s { retired = true; registrations = []; closer = cancelling registrations registrations }

pub data Event : Type 0 where
  poll : ℕ → Event
  wake_start : ℕ → Event
  wake_finish : ℕ → Event
  release : ℕ → Event
  retire : Event
  cancel_next : Event
  wait_next : Event

abbrev pub set_closer : Closer → Wakers → Wakers
set_closer c s = record s { closer = c }

-- the closing thread
pub close_step : Closer → Event → Wakers → Option Wakers
unfolding drain
close_step idle retire s = some (drain s)
close_step (cancelling (i ∷ todo) drained) cancel_next s = some (record s {
  context = update s.context i (cancel (s.context i));
  closer = cancelling todo drained;
})
close_step (cancelling [] drained) cancel_next s = some (set_closer (waiting drained) s)
close_step (waiting (i ∷ todo)) wait_next s =
    if (s.context i).active then none else some (set_closer (waiting todo) s)
close_step (waiting []) wait_next s = some (set_closer closed s)
close_step _ _ s = none

-- One step of one thread; `none` where the event cannot happen. A context is woken or released only
-- through a waker that is left, and a thread inside `wake_once` keeps its waker.
pub step : Event → Wakers → Option Wakers
unfolding register enter close_step
step (poll i) s = if (s.context i).used then none else some (register i s)
step (wake_start i) s =
    if (s.context i).live && not (s.context i).active
    then some (record s { context = update s.context i (enter (s.context i)).0 })
    else none
step (wake_finish i) s =
    if (s.context i).active
    then some (record s { context = update s.context i (record (s.context i) { active = false }) })
    else none
step (release i) s =
    if (s.context i).live && not (s.context i).active
    then some (record s { context = update s.context i (record (s.context i) { live = false }) })
    else none
step e s = close_step s.closer e s

-- the states that some interleaving of the threads reaches
pub data Reach (s : Wakers) : Wakers → Type 0 where
  here : Reach s s
  next : {t u : Wakers} → Reach s t → (e : Event) → step e t ≡ some u → Reach s u
