-- ===== src/Waker/Once.antt =====
-- A waker's callback is entered at most once, however many clones of the waker there are.
use lance_c.Prelude.{
  ℕ, ◌+◌, ◌≤◌, none, some, Bool, true, false, List, [], ◌∷◌, ◌≡◌, refl, ◌==◌, if◌then◌else◌, arith,
  inl, inr, Option-cases,
}
use lance_c.Waker.{
  Context, Wakers, init, enter, Event, poll, wake_start, wake_finish, release, retire, cancel_next,
  wait_next, step,
}

abbrev count : Bool → ℕ
count true = 1
count false = 0

-- 1 if this event enters the callback of context `i`
abbrev enters : ℕ → Event → Wakers → ℕ
enters i (wake_start j) s = if i == j then count (enter (s.context j)).1 else 0
enters i _ s = 0

-- how often a schedule enters the callback of context `i`
pub entries : ℕ → List Event → Wakers → ℕ
entries i [] s = 0
entries i (e ∷ es) s = elim (step e s) [ none ↦ 0 | some t ↦ enters i e s + entries i es t ]

abbrev Unfired : Context → Type 0
Unfired c = c.used ≡ false → (c.fired ≡ false) × (c.live ≡ false)

step_counts :
    (i : ℕ) (e : Event) (s t : Wakers)
    → step e s ≡ some t
    → ((j : ℕ) → Unfired (s.context j))
    → enters i e s + count (s.context i).fired ≤ count (t.context i).fired
unfolding step
step_counts i (poll j) s t p h = ground (arith, h j, h i)
step_counts i (wake_start j) s t p h = ground (arith, h j, h i)
step_counts i (wake_finish j) s t p h = ground (arith, h j, h i)
step_counts i (release j) s t p h = ground (arith, h j, h i)
step_counts i retire s t p h = ground arith
step_counts i cancel_next s t p h = ground arith
step_counts i wait_next s t p h = ground arith

step-Unfired :
    (e : Event) (s t : Wakers) (j : ℕ)
    → step e s ≡ some t
    → ((i : ℕ) → Unfired (s.context i))
    → Unfired (t.context j)
unfolding step
step-Unfired (poll i) s t j p h = ground (arith, h i, h j)
step-Unfired (wake_start i) s t j p h = ground (arith, h i, h j)
step-Unfired (wake_finish i) s t j p h = ground (arith, h i, h j)
step-Unfired (release i) s t j p h = ground (arith, h i, h j)
step-Unfired retire s t j p h = ground (arith, h j)
step-Unfired cancel_next s t j p h = ground (arith, h j)
step-Unfired wait_next s t j p h = ground (arith, h j)

entries_le :
    (i : ℕ) (es : List Event) (s : Wakers)
    → ((j : ℕ) → Unfired (s.context j))
    → entries i es s + count (s.context i).fired ≤ 1
unfolding entries
entries_le i [] s h = ground arith
entries_le i (e ∷ es) s h = elim (Option-cases (step e s)) [
  | inl p ↦ rw (p, entries) (ground arith)
  | inr (t, p) ↦
      rw (p, entries)
        (omega (arith, step_counts i e s t p h, entries_le i es t (λ j. step-Unfired e s t j p h)))
]

-- In every schedule of polls, wakes, releases and the close, the callback of each waker is entered
-- at most once, by whichever of the waker's clones.
pub wake_at_most_once : (i : ℕ) (es : List Event) → entries i es init ≤ 1
wake_at_most_once i es = omega (arith, entries_le i es init (λ j e. (refl, refl)))
