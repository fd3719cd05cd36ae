-- ===== src/Waker/Retire.antt =====
-- After `retire_and_wait` has returned, no waker callback runs and none can start.
use lance_c.Prelude.{
  update, ℕ, some, Bool, true, false, not, ◌&&◌, ◌||◌, List, [], ◌∷◌, ◌++◌, ◌≡◌, refl, arith,
}
use lance_c.Waker.{
  Context, Closer, idle, cancelling, waiting, closed, Wakers, init, cancel, mem, retain, enter,
  Event, poll, wake_start, wake_finish, release, retire, cancel_next, wait_next, close_step, step,
  Reach, here, next,
}

mem-append : (j : ℕ) (xs ys : List ℕ) → mem j (xs ++ ys) ≡ (mem j xs || mem j ys)
mem-append j [] ys = refl
mem-append j (x ∷ xs) ys = ground (arith, mem-append j xs ys)

mem-retain :
    (f : ℕ → Context) (j : ℕ) (xs : List ℕ) → mem j (retain f xs) ≡ (mem j xs && (f j).live)
unfolding retain
mem-retain f j [] = refl
mem-retain f j (x ∷ xs) = ground (arith, mem-retain f j xs)

-- whose context may still be uncancelled
abbrev pending : Closer → List ℕ → ℕ → Bool
pending idle rs j = mem j rs
pending (cancelling todo drained) rs j = mem j todo
pending (waiting todo) rs j = false
pending closed rs j = false

-- whose callback may still run
abbrev watched : Closer → List ℕ → ℕ → Bool
watched idle rs j = mem j rs
watched (cancelling todo drained) rs j = mem j drained
watched (waiting todo) rs j = mem j todo
watched closed rs j = false

abbrev is_idle : Closer → Bool
is_idle idle = true
is_idle _ = false

record InvAt (s : Wakers) (j : ℕ) : Type 0 where
  retired : s.retired ≡ not (is_idle s.closer)
  uncancelled :
      (s.context j).live ≡ true
      → (s.context j).cancelled ≡ false
      → pending s.closer s.registrations j ≡ true
  pending_watched :
      pending s.closer s.registrations j ≡ true → watched s.closer s.registrations j ≡ true
  active_live : (s.context j).active ≡ true → (s.context j).live ≡ true
  active_watched : (s.context j).active ≡ true → watched s.closer s.registrations j ≡ true
  unused : (s.context j).used ≡ false → (s.context j).live ≡ false

step-InvAt :
    (e : Event) (s t : Wakers) (j : ℕ) → step e s ≡ some t → ((i : ℕ) → InvAt s i) → InvAt t j
unfolding step
step-InvAt (poll i) s t j e h = ground (
  arith,
  h i,
  h j,
  mem-append j (retain s.context s.registrations) (i ∷ []),
  mem-retain s.context j s.registrations,
)
step-InvAt (wake_start i) s t j e h = ground (arith, h i, h j)
step-InvAt (wake_finish i) s t j e h = ground (arith, h i, h j)
step-InvAt (release i) s t j e h = ground (arith, h i, h j)
step-InvAt retire s t j e h = ground (arith, h j, mem-retain s.context j s.registrations)
step-InvAt cancel_next s t j e h = ground (arith, h j)
step-InvAt wait_next s t j e h = ground (arith, h j)

Reach-InvAt : (s t : Wakers) → ((i : ℕ) → InvAt s i) → Reach s t → (i : ℕ) → InvAt t i
Reach-InvAt s t h here = h
Reach-InvAt s t h (next {t = u} r e p) = λ i. step-InvAt e u t i p (Reach-InvAt s u h r)

init-InvAt : (i : ℕ) → InvAt init i
init-InvAt i = ground arith

Reach-trans : {s t u : Wakers} → Reach s t → Reach t u → Reach s u
Reach-trans r here = r
Reach-trans r (next q e p) = next (Reach-trans r q) e p

step_closed : (e : Event) (s t : Wakers) → step e s ≡ some t → s.closer ≡ closed → t.closer ≡ closed
unfolding step
step_closed (poll i) s t p h = ground arith
step_closed (wake_start i) s t p h = ground arith
step_closed (wake_finish i) s t p h = ground arith
step_closed (release i) s t p h = ground arith
step_closed retire s t p h = ground arith
step_closed cancel_next s t p h = ground arith
step_closed wait_next s t p h = ground arith

Reach-closed : (s t : Wakers) → Reach s t → s.closer ≡ closed → t.closer ≡ closed
Reach-closed s t here h = h
Reach-closed s t (next {t = u} r e p) h = step_closed e u t p (Reach-closed s u r h)

quiet_of_InvAt :
    (s : Wakers) (i : ℕ)
    → InvAt s i
    → s.closer ≡ closed
    → ((s.context i).active ≡ false) × ((s.context i).live ≡ true → (enter (s.context i)).1 ≡ false)
unfolding enter
quiet_of_InvAt s i h c = ground (arith, h)

-- Take any interleaving of polls, wakes, releases and the close that leads to a state in which the
-- close has returned, and any interleaving after it: no callback is running then, and no waker that
-- is left would enter its callback, so that the caller may destroy the callback's context.
pub close_quiet :
    (s t : Wakers)
    → Reach init s
    → s.closer ≡ closed
    → Reach s t
    → (i : ℕ)
    → ((t.context i).active ≡ false) × ((t.context i).live ≡ true → (enter (t.context i)).1 ≡ false)
close_quiet s t r c q i =
    quiet_of_InvAt t i (Reach-InvAt init t init-InvAt (Reach-trans r q) i) (Reach-closed s t q c)

-- an event of the closing thread
abbrev pub is_closing : Event → Bool
is_closing retire = true
is_closing cancel_next = true
is_closing wait_next = true
is_closing _ = false

-- the states that the closing thread reaches while every other thread stands still
pub data Alone (s : Wakers) : Wakers → Type 0 where
  stay : Alone s s
  alone :
      {t u : Wakers} → Alone s t → (e : Event) → is_closing e ≡ true → step e t ≡ some u → Alone s u

Alone-trans : {s t u : Wakers} → Alone s t → Alone t u → Alone s u
Alone-trans r stay = r
Alone-trans r (alone q e c p) = alone (Alone-trans r q) e c p

abbrev at_waiting : Wakers → List ℕ → Wakers
at_waiting s todo = record s { closer = waiting todo }

waiting_closes :
    (s : Wakers) (todo : List ℕ)
    → ((i : ℕ) → (s.context i).active ≡ false)
    → (t : Wakers) × Alone (at_waiting s todo) t × (t.closer ≡ closed)
unfolding step
waiting_closes s [] h = (record s { closer = closed }, alone stay wait_next refl refl, refl)
waiting_closes s (i ∷ todo) h =
    let (t, r, c) = waiting_closes s todo h in
    (t, Alone-trans (alone stay wait_next refl (rw (h i))) r, c)

abbrev at_cancelling : Wakers → List ℕ → List ℕ → Wakers
at_cancelling s todo drained = record s { closer = cancelling todo drained }

cancelling_closes :
    (s : Wakers) (todo drained : List ℕ)
    → ((i : ℕ) → (s.context i).active ≡ false)
    → (t : Wakers) × Alone (at_cancelling s todo drained) t × (t.closer ≡ closed)
unfolding step
cancelling_closes s [] drained h =
    let (t, r, c) = waiting_closes s drained h in
    (t, Alone-trans (alone stay cancel_next refl refl) r, c)
cancelling_closes s (i ∷ todo) drained h =
    let s' : Wakers = record s { context = update s.context i (cancel (s.context i)) } in
    let (t, r, c) = cancelling_closes s' todo drained (λ j. ground (arith, h i, h j)) in
    (t, Alone-trans (alone stay cancel_next refl refl) r, c)

retire_lem :
    (s : Wakers)
    → s.closer ≡ idle
    → let rs = retain s.context s.registrations in
      step retire s ≡ some (at_cancelling (record s { retired = true; registrations = [] }) rs rs)
unfolding step
retire_lem s c = rw (c, close_step)

-- From a state in which no callback is running, the close runs to its end by steps of the closing
-- thread alone: it neither waits for a callback that never started nor for one that has finished, nor
-- for a waker to be released.
pub close_returns :
    (s : Wakers)
    → ((i : ℕ) → (s.context i).active ≡ false)
    → s.closer ≡ idle
    → (t : Wakers) × Alone s t × (t.closer ≡ closed)
close_returns s h c =
    let rs = retain s.context s.registrations in
    let s' : Wakers = record s { retired = true; registrations = [] } in
    let (t, r, e) = cancelling_closes s' rs rs h in
    (t, Alone-trans (alone stay retire refl (retire_lem s c)) r, e)
