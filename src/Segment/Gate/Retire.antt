-- ===== src/Segment/Gate/Retire.antt =====
-- Once `retire` has returned, no progress callback runs and none starts; and `retire` returns when
-- the callbacks do.
use lance_c.Prelude.{
  ℕ, zero, suc, ◌≤◌, ◌<◌, some, Bool, true, false, not, update, count, count-update, count_le,
  count-eq-zero, ◌≡◌, refl, arith,
}
use lance_c.Scanner.Limits.{usize_mod}
use lance_c.Segment.Gate.{
  Phase, idle, counted, inside, leaving, refused, Owner, building, returned, Gate, open_gate,
  GateEvent, add, check, finish, sub, store, load, gate_step, Reach, here, next,
}

-- between `fetch_add` and `fetch_sub`
abbrev pub is_counted : Phase → Bool
is_counted idle = false
is_counted _ = true

abbrev pub is_inside : Phase → Bool
is_inside inside = true
is_inside _ = false

abbrev pub has_returned : Owner → Bool
has_returned returned = true
has_returned _ = false

abbrev pub is_building : Owner → Bool
is_building building = true
is_building _ = false

pub record Inv (n : ℕ) (s : Gate) : Type 0 where
  pub counts : s.in_flight ≡ count is_counted n s.worker
  pub beyond : (i : ℕ) → n ≤ i → is_counted (s.worker i) ≡ false
  pub retired : s.retired ≡ not (is_building s.owner)
  pub quiet : has_returned s.owner ≡ true → (i : ℕ) → is_inside (s.worker i) ≡ false

module _ {n : ℕ} (few : n < usize_mod) where
  step-counts :
      (e : GateEvent) (s t : Gate)
      → Inv n s
      → gate_step n e s ≡ some t
      → t.in_flight ≡ count is_counted n t.worker
  unfolding gate_step
  step-counts (add i) s t h e = ground (
    arith,
    h.counts,
    count_le is_counted n (update s.worker i counted),
    count-update is_counted n s.worker i counted,
  )
  step-counts (check i) s t h e = ground (
    arith,
    h.counts,
    count-update is_counted n s.worker i refused,
    count-update is_counted n s.worker i inside,
  )
  step-counts (finish i) s t h e =
      ground (arith, h.counts, count-update is_counted n s.worker i leaving)
  step-counts (sub i) s t h e =
      ground
        (arith, h.counts, count_le is_counted n s.worker, count-update is_counted n s.worker i idle)
  step-counts store s t h e = ground (arith, h.counts)
  step-counts load s t h e = ground (arith, h.counts)

  step-quiet :
      (e : GateEvent) (s t : Gate) (j : ℕ)
      → Inv n s
      → gate_step n e s ≡ some t
      → has_returned t.owner ≡ true
      → is_inside (t.worker j) ≡ false
  unfolding gate_step
  step-quiet (add i) s t j h e r = ground (arith, h.quiet _ j)
  step-quiet (check i) s t j h e r = ground (arith, h.quiet _ j, h.retired)
  step-quiet (finish i) s t j h e r = ground (arith, h.quiet _ j)
  step-quiet (sub i) s t j h e r = ground (arith, h.quiet _ j)
  step-quiet store s t j h e r = ground (arith, h.quiet _ j)
  step-quiet load s t j h e r =
      ground (arith, h.quiet _ j, h.counts, h.beyond j, count-eq-zero is_counted n s.worker j)

  step-beyond :
      (e : GateEvent) (s t : Gate) (j : ℕ)
      → Inv n s
      → gate_step n e s ≡ some t
      → n ≤ j
      → is_counted (t.worker j) ≡ false
  unfolding gate_step
  step-beyond (add i) s t j h e b = ground (arith, h.beyond j)
  step-beyond (check i) s t j h e b = ground (arith, h.beyond j)
  step-beyond (finish i) s t j h e b = ground (arith, h.beyond j)
  step-beyond (sub i) s t j h e b = ground (arith, h.beyond j)
  step-beyond store s t j h e b = ground (arith, h.beyond j)
  step-beyond load s t j h e b = ground (arith, h.beyond j)

  step-retired :
      (e : GateEvent) (s t : Gate)
      → Inv n s
      → gate_step n e s ≡ some t
      → t.retired ≡ not (is_building t.owner)
  unfolding gate_step
  step-retired (add i) s t h e = ground (arith, h.retired)
  step-retired (check i) s t h e = ground (arith, h.retired)
  step-retired (finish i) s t h e = ground (arith, h.retired)
  step-retired (sub i) s t h e = ground (arith, h.retired)
  step-retired store s t h e = ground (arith, h.retired)
  step-retired load s t h e = ground (arith, h.retired)

  step-Inv : (e : GateEvent) (s t : Gate) → Inv n s → gate_step n e s ≡ some t → Inv n t
  step-Inv e s t h p = record {
    counts = step-counts e s t h p;
    beyond = λ j. step-beyond e s t j h p;
    retired = step-retired e s t h p;
    quiet = λ r j. step-quiet e s t j h p r;
  }

  pub Reach-Inv : {s t : Gate} → Inv n s → Reach n s t → Inv n t
  Reach-Inv h here = h
  Reach-Inv h (next {t} {u} r e p) = step-Inv e t u (Reach-Inv h r) p

fresh_counts : (n : ℕ) → 0 ≡ count is_counted n (λ _. idle)
fresh_counts zero = refl
fresh_counts (suc n) = omega (arith, fresh_counts n)

pub open_gate-Inv : (n : ℕ) → Inv n open_gate
open_gate-Inv n = record {
  counts = fresh_counts n;
  beyond = λ i h. refl;
  retired = refl;
  quiet = λ r i. refl;
}

stays_returned :
    (n : ℕ) (e : GateEvent) (s t : Gate)
    → gate_step n e s ≡ some t
    → has_returned s.owner ≡ true
    → has_returned t.owner ≡ true
unfolding gate_step
stays_returned n (add i) s t p h = ground arith
stays_returned n (check i) s t p h = ground arith
stays_returned n (finish i) s t p h = ground arith
stays_returned n (sub i) s t p h = ground arith
stays_returned n store s t p h = ground arith
stays_returned n load s t p h = ground arith

Reach-returned :
    {n : ℕ} {s t : Gate} → Reach n s t → has_returned s.owner ≡ true → has_returned t.owner ≡ true
Reach-returned here h = h
Reach-returned {n} (next {t} {u} r e p) h = stays_returned n e t u p (Reach-returned r h)

-- With fewer than 2^64 workers, in whatever order their reports and the retirement interleave: once
-- `retire` has returned, no worker is in the C callback, then or at any later time.
pub retired_quiet :
    {n : ℕ} {s t : Gate}
    → n < usize_mod
    → Reach n open_gate s
    → has_returned s.owner ≡ true
    → Reach n s t
    → (i : ℕ) → is_inside (t.worker i) ≡ false
retired_quiet {n} few r done q =
    (Reach-Inv few (Reach-Inv few (open_gate-Inv n) r) q).quiet (Reach-returned q done)
