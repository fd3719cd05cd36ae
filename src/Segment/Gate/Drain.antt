-- ===== src/Segment/Gate/Drain.antt =====
-- The loop of `retire` ends once the workers have taken their steps.
use lance_c.Prelude.{
  Bool, ℕ, zero, suc, ◌+◌, ◌-◌, ◌%◌, ◌≤◌, ◌<◌, some, true, false, update, count, ◌≡◌, ap, ◌∙◌, refl,
  arith, inl, inr, not, Bool-cases, ◌==◌,
}
use lance_c.Scanner.Limits.{usize_mod}
use lance_c.Segment.Gate.{
  Phase, idle, counted, inside, leaving, refused, draining, returned, Gate, open_gate, GateEvent,
  check, finish, sub, load, sub_from, gate_step, Reach, here, next,
}
use lance_c.Segment.Gate.Retire.{is_counted, is_building, Reach-Inv, open_gate-Inv}

-- a worker that has taken its steps up to the end of its report
abbrev settled : Gate → ℕ → Gate
settled s i = record s {
  in_flight = (s.in_flight + (usize_mod - 1)) % usize_mod;
  worker = update s.worker i idle;
}

-- an event that ends a report under way, or the loop's test
abbrev pub is_ending : GateEvent → Bool
is_ending (check i) = true
is_ending (finish i) = true
is_ending (sub i) = true
is_ending load = true
is_ending _ = false

-- the states that such events lead to
pub data Ending (n : ℕ) (s : Gate) : Gate → Type 0 where
  stay : Ending n s s
  ending :
      {t u : Gate}
      → Ending n s t
      → (e : GateEvent) → is_ending e ≡ true
      → gate_step n e t ≡ some u
      → Ending n s u

Ending-Reach : {n : ℕ} {s t : Gate} → Ending n s t → Reach n s t
Ending-Reach stay = here
Ending-Reach (ending r e c p) = next (Ending-Reach r) e p

-- `s` with worker `i` at rest, and no other worker moved
record Rested (n : ℕ) (s : Gate) (i : ℕ) : Type 0 where
  state : Gate
  reach : Ending n s state
  owner : state.owner ≡ s.owner
  retired : state.retired ≡ s.retired
  there : is_counted (state.worker i) ≡ false
  others : (j : ℕ) → is_counted (s.worker j) ≡ false → is_counted (state.worker j) ≡ false

Ending-trans : {n : ℕ} {s t u : Gate} → Ending n s t → Ending n t u → Ending n s u
Ending-trans r stay = r
Ending-trans r (ending q e c p) = ending (Ending-trans r q) e c p

still :
    (f g : ℕ → Phase) (i j : ℕ) (p : Phase)
    → is_counted (g i) ≡ false
    → (is_counted (update f i p j) ≡ false → is_counted (g j) ≡ false)
    → is_counted (f j) ≡ false
    → is_counted (g j) ≡ false
still f g i j p h k l = ground (arith, h, k, l)

none_counted :
    (k : ℕ) (f : ℕ → Phase)
    → ((j : ℕ) → j < k → is_counted (f j) ≡ false)
    → count is_counted k f ≡ 0
none_counted zero f h = refl
none_counted (suc k) f h = ground (arith, h k, none_counted k f (λ j l. h j (omega (arith, l))))

below :
    (f g : ℕ → Phase) (k j : ℕ)
    → j < suc k
    → (is_counted (f j) ≡ false → is_counted (g j) ≡ false)
    → (j < k → is_counted (f j) ≡ false)
    → is_counted (g k) ≡ false
    → is_counted (g j) ≡ false
below f g k j l h b e = elim (Bool-cases (k == j)) [
  | inl p ↦ ground (arith, p, e)
  | inr p ↦ h (b (ground (arith, p, l)))
]

load_step :
    (n : ℕ) (s : Gate)
    → s.owner ≡ draining
    → s.in_flight ≡ 0
    → gate_step n load s ≡ some (record s { owner = returned })
unfolding gate_step
load_step n s p h = ground (arith, p, h)

module _ {n : ℕ} where
  -- the last gate_step of a worker, and the two ways there
  sub_step :
      (s : Gate) (i : ℕ)
      → i < n
      → sub_from (s.worker i) ≡ some idle
      → gate_step n (sub i) s ≡ some (settled s i)
  unfolding gate_step
  sub_step s i h p = ground arith

  finish_step :
      (s : Gate) (i : ℕ)
      → i < n
      → s.worker i ≡ inside
      → gate_step n (finish i) s ≡ some (record s { worker = update s.worker i leaving })
  unfolding gate_step
  finish_step s i h p = ground arith

  check_step :
      (s : Gate) (i : ℕ)
      → i < n
      → s.retired ≡ true
      → s.worker i ≡ counted
      → gate_step n (check i) s ≡ some (record s { worker = update s.worker i refused })
  unfolding gate_step
  check_step s i h r p = ground arith

  leave : (s : Gate) (i : ℕ) → i < n → sub_from (s.worker i) ≡ some idle → Rested n s i
  leave s i h p = record {
    state = settled s i;
    reach = ending stay (sub i) refl (sub_step s i h p);
    owner = refl;
    retired = refl;
    there = ground arith;
    others = λ j q. ground arith;
  }

  -- a gate_step of worker `i` before the last
  before :
      (s : Gate) (i : ℕ) (e : GateEvent) (p : Phase)
      → i < n
      → is_ending e ≡ true
      → gate_step n e s ≡ some (record s { worker = update s.worker i p })
      → sub_from p ≡ some idle
      → Rested n s i
  before s i e p h c q r =
      let s' : Gate = record s { worker = update s.worker i p } in
      let t = leave s' i h (ground (arith, r)) in
      record {
        state = t.state;
        reach = Ending-trans (ending stay e c q) t.reach;
        owner = t.owner;
        retired = t.retired;
        there = t.there;
        others = λ j. still s.worker t.state.worker i j p t.there (t.others j);
      }

  rest : (s : Gate) (i : ℕ) (p : Phase) → i < n → s.retired ≡ true → s.worker i ≡ p → Rested n s i
  rest s i idle h r w = record {
    state = s;
    reach = stay;
    owner = refl;
    retired = refl;
    there = ap is_counted w;
    others = λ j q. q;
  }
  rest s i counted h r w = before s i (check i) refused h refl (check_step s i h r w) refl
  rest s i inside h r w = before s i (finish i) leaving h refl (finish_step s i h w) refl
  rest s i leaving h r w = leave s i h (ground (arith, w))
  rest s i refused h r w = leave s i h (ground (arith, w))

  rest_all :
      (k : ℕ) (s : Gate)
      → k ≤ n
      → s.retired ≡ true
      → (t : Gate) × Ending n s t
        × (t.owner ≡ s.owner)
        × (t.retired ≡ true)
        × ((j : ℕ) → j < k → is_counted (t.worker j) ≡ false)
  rest_all zero s h r = (s, stay, refl, r, λ j l. ground (arith, l))
  rest_all (suc k) s h r =
      let (t, q, o, r', b) = rest_all k s (omega (arith, h)) r in
      let u = rest t k (t.worker k) h r' refl in
      (
        u.state,
        Ending-trans q u.reach,
        u.owner ∙ o,
        u.retired ∙ r',
        λ j l. below t.worker u.state.worker k j l (u.others j) (b j) u.there,
      )

-- Wherever the workers stand when the gate is retired, the loop of `retire` ends after some steps of
-- which none begins a report: each is a test, a return of a callback or a decrement of a report that
-- is under way, or a test of the loop.
pub retire_returns :
    {n : ℕ} {s : Gate}
    → n < usize_mod
    → Reach n open_gate s
    → s.owner ≡ draining
    → (t : Gate) × Ending n s t × (t.owner ≡ returned)
retire_returns {n} {s} few r o =
    let h = Reach-Inv few (open_gate-Inv n) r in
    let (t, q, o', r', b) =
      rest_all n s (omega arith) (h.retired ∙ ap (λ x. not (is_building x)) o) in
    let k = Reach-Inv few h (Ending-Reach q) in
    (
      record t { owner = returned },
      ending q load refl (load_step n t (o' ∙ o) (k.counts ∙ none_counted n t.worker b)),
      refl,
    )
