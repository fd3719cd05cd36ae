-- ===== src/Waker/Examples.antt =====
-- The wakers' theorems at concrete schedules.
use lance_c.Prelude.{update, ◌≤◌, true, false, List, [], ◌∷◌, ◌≡◌, refl, arith}
use lance_c.Waker.{
  Wakers, Closer, init, fresh, unmade, cancel, enter, Event, poll, wake_start, wake_finish, retire,
  cancel_next, wait_next, step, Reach, here, next,
}
use lance_c.Waker.Retire.{Alone, close_quiet, close_returns}
use lance_c.Waker.Once.{entries, wake_at_most_once}

-- a poll, a wake that runs while the close begins, and a second wake of the same waker
abbrev schedule : List Event
schedule =
    poll 1
    ∷ wake_start 1
    ∷ retire
    ∷ cancel_next
    ∷ wake_finish 1
    ∷ cancel_next
    ∷ wake_start 1
    ∷ wait_next
    ∷ []

wake_at_most_once_example : entries 1 schedule init ≤ 1
wake_at_most_once_example = wake_at_most_once 1 schedule

-- the close of a scanner that polled once and was not woken
abbrev polled : Wakers
polled = record {
  context = update (λ _. unmade) 1 fresh;
  retired = false;
  registrations = 1 ∷ [];
  closer = Closer.idle;
}

close_returns_example : (t : Wakers) × Alone polled t × (t.closer ≡ Closer.closed)
close_returns_example = close_returns polled (λ i. ground arith) refl

abbrev at_end : Wakers
at_end = record {
  context = update (update (λ _. unmade) 1 fresh) 1 (cancel fresh);
  retired = true;
  registrations = [];
  closer = Closer.closed;
}

polled_once : Reach init at_end
unfolding step
polled_once =
    next
      (next
        (next (next (next (next here (poll 1) refl) retire refl) cancel_next refl) cancel_next refl)
        wait_next refl)
      wait_next refl

-- a waker that is woken after the close
abbrev late : Wakers
late = record at_end { context = update at_end.context 1 (cancel fresh) }

late_wake : Reach at_end late
unfolding step
late_wake = next here (wake_start 1) refl

close_quiet_example :
    ((late.context 1).active ≡ false)
    × ((late.context 1).live ≡ true → (enter (late.context 1)).1 ≡ false)
close_quiet_example = close_quiet at_end late polled_once refl late_wake 1
