-- ===== src/Write/Valid.antt =====
-- What a change of the dataset leaves behind, if all checks before it pass (src/delete.rs, update.rs,
-- merge_insert.rs, compact.rs, add_columns.rs, drop_columns.rs and alter_columns.rs).
pub mod Rows
pub mod Columns
pub mod Calls
use lance_c.Prelude.{
  ℤ, ℤ, String, Option, none, some, Bool, true, false, Result, ok, ◌≡◌, refl, sym, subst,
}
use lance_c.Ffi.Outcome.{Caught, done, State}
use lance_c.Ffi.LastError.{LanceError, LastError}
use lance_c.Dataset.{Lock, Mutation, with_mut}
use lance_c.Write.{
  Source, Caller, Call, given, attempt, ◌>>=◌, refuse_if, require, dataset_pointer, stream_pointer,
  drop_reader, take_source, imported, with_reader, mutated,
}
use lance_c.Write.Transacts.{Change, result_of, lock_after, out_after, Reports, swapped_then}

module _ {D O : Type 0} where
  -- The change was made under this lock, with this result slot before it.
  pub record Acted (c : Change D O) (lock : Lock D) (out : Option O)
      (q : Caught (Result LanceError ℤ) × State LastError (Caller D O)) : Type 0 where
    pub returned : q.0 ≡ result_of (c.change lock.inner).0
    pub locked : q.1.world.dataset ≡ some (lock_after lock (c.change lock.inner))
    pub reported : q.1.world.out ≡ out_after c.report out (c.change lock.inner).0

  module _ {c : Change D O} {lock : Lock D} {out : Option O} where
    module _ {A : Type 0} (f : A → Call D O ℤ) (s : State LastError (Caller D O)) {a : A} where
      pub past_given :
          {r : Result LanceError A}
          → r ≡ ok a
          → Acted c lock out (f a s)
          → Acted c lock out ((given r >>= f) s)
      unfolding ◌>>=◌
      past_given e h = subst (λ r. Acted c lock out ((given r >>= f) s)) (sym e) h

      pub past_attempt :
          {r : Caught (Result LanceError A)}
          → r ≡ done (ok a)
          → Acted c lock out (f a s)
          → Acted c lock out ((attempt r >>= f) s)
      unfolding ◌>>=◌
      past_attempt e h = subst (λ r. Acted c lock out ((attempt r >>= f) s)) (sym e) h

      pub past_require :
          {o : Option A} (message : String)
          → o ≡ some a
          → Acted c lock out (f a s)
          → Acted c lock out ((require o message >>= f) s)
      unfolding ◌>>=◌
      past_require message e h =
          subst (λ o. Acted c lock out ((require o message >>= f) s)) (sym e) h

    pub past_refuse_if :
        (f : Unit {0} → Call D O ℤ) (s : State LastError (Caller D O)) {b : Bool} (message : String)
        → b ≡ false
        → Acted c lock out (f tt s)
        → Acted c lock out ((refuse_if b message >>= f) s)
    unfolding ◌>>=◌
    past_refuse_if f s message e h =
        subst (λ b. Acted c lock out ((refuse_if b message >>= f) s)) (sym e) h

    pub past_pointer :
        (f : Option (Lock D) → Call D O ℤ) (s : State LastError (Caller D O))
        → Acted c lock out (f s.world.dataset s)
        → Acted c lock out ((dataset_pointer >>= f) s)
    unfolding ◌>>=◌
    past_pointer f s h = h

    pub past_stream :
        (f : Option Source → Call D O ℤ) (s : State LastError (Caller D O))
        → Acted c lock out (f s.world.source s)
        → Acted c lock out ((stream_pointer >>= f) s)
    unfolding ◌>>=◌
    past_stream f s h = h

    dropped-Acted :
        {q : Caught (Result LanceError ℤ) × State LastError (Caller D O)}
        → Acted c lock out q
        → Acted c lock out (q.0, record q.1 { world = drop_reader q.1.world })
    dropped-Acted h = record { returned = h.returned; locked = h.locked; reported = h.reported }

    pub past_reader :
        {X : Type 0} {import : Caught (Option X)} {x : X} (src : Source) (body : X → Call D O ℤ)
        (s : State LastError (Caller D O))
        → src.release ≡ true
        → import ≡ done (some x)
        → Acted c lock out (body x (record s { world = take_source src s.world }))
        → Acted c lock out (with_reader src import body s)
    unfolding with_reader ◌>>=◌
    past_reader {import} {x} src body s live e h =
        subst (λ b. Acted c lock out (with_reader (record src { release = b }) import body s))
          (sym live)
          (dropped-Acted (
            subst
              (λ i.
                Acted c lock out
                  ((imported i >>= body) (record s { world = take_source src s.world })))
              (sym e) h))

  -- the change itself
  pub makes_change :
      {R : Type 0} (lock : Lock D) (f : Mutation D (Result LanceError R)) (k : R → Call D O ℤ)
      (report : R → Option O → Option O)
      → Reports k report
      → (s : State LastError (Caller D O))
      → Acted
          (record { R = R; change = f; report = report })
          lock
          s.world.out
          ((mutated lock f >>= k) s)
  unfolding ◌>>=◌ mutated with_mut
  makes_change lock f k report g s =
      let (result, locked, reported) = swapped_then lock k report g (f lock.inner) s in
      record { returned = result; locked = locked; reported = reported }

module _ {D O : Type 0} where
  -- a call, with the change that it makes
  abbrev pub Acts : Change D O → Lock D → State LastError (Caller D O) → Call D O ℤ → Type 0
  Acts ch lock s m = Acted ch lock s.world.out (m s)
