-- ===== src/Write/Keeps.antt =====
-- Calls that keep a part of the caller's memory, whatever they return.
use lance_c.Prelude.{
  ◌+◌, String, Option, none, some, Bool, true, false, Result, ok, err, ◌≡◌, refl, ap, ◌∙◌,
  if◌then◌else◌,
}
use lance_c.Ffi.Outcome.{Caught, done, panicked, State, continue}
use lance_c.Ffi.LastError.{LanceError, LastError}
use lance_c.Dataset.{Lock, Mutation}
use lance_c.Write.{
  Source, Caller, Call, given, attempt, proceed, ◌>>=◌, refuse_if, require, dropped,
  dataset_pointer, take_source, imported, with_reader, mutated, write_out,
}

module _ {D O X : Type 0} (part : Caller D O → X) where
  pub record Keeps {A : Type 0} (m : Call D O A) : Type 0 where
    pub keeps : (s : State LastError (Caller D O)) → part (m s).1.world ≡ part s.world

  module _ {A B : Type 0} where
    proceed-Keeps :
        (r : Result LanceError A) (f : A → Call D O B)
        → ((a : A) → Keeps (f a))
        → (t : State LastError (Caller D O)) → part (proceed r f t).1.world ≡ part t.world
    proceed-Keeps (ok a) f h t = (h a).keeps t
    proceed-Keeps (err e) f h t = refl

    continue-Keeps :
        (r : Caught (Result LanceError A)) (f : A → Call D O B)
        → ((a : A) → Keeps (f a))
        → (t : State LastError (Caller D O))
        → part (continue r (λ a. proceed a f) t).1.world ≡ part t.world
    continue-Keeps (done a) f h t = proceed-Keeps a f h t
    continue-Keeps (panicked p) f h t = refl

    pub bind-Keeps :
        {m : Call D O A} {f : A → Call D O B} → Keeps m → ((a : A) → Keeps (f a)) → Keeps (m >>= f)
    unfolding ◌>>=◌
    bind-Keeps {m} {f} k h = record { keeps = λ s. continue-Keeps (m s).0 f h (m s).1 ∙ k.keeps s }

  -- what does not touch the memory
  pub given-Keeps : {A : Type 0} (r : Result LanceError A) → Keeps (given r)
  given-Keeps r = record { keeps = λ s. refl }

  pub attempt-Keeps : {A : Type 0} (c : Caught (Result LanceError A)) → Keeps (attempt c)
  attempt-Keeps c = record { keeps = λ s. refl }

  pub refuse_if-Keeps : (b : Bool) (message : String) → Keeps (refuse_if b message)
  refuse_if-Keeps true message = given-Keeps _
  refuse_if-Keeps false message = given-Keeps _

  pub require-Keeps : {A : Type 0} (o : Option A) (message : String) → Keeps (require o message)
  require-Keeps none message = given-Keeps _
  require-Keeps (some a) message = given-Keeps _

  pub pointer-Keeps : Keeps dataset_pointer
  pointer-Keeps = record { keeps = λ s. refl }

module _ {D O : Type 0} where
  -- a mutation of the dataset keeps the stream
  pub mutated-Keeps :
      {A : Type 0} (lock : Lock D) (f : Mutation D (Result LanceError A))
      → Keeps (λ c. c.source) (mutated {O = O} lock f)
  unfolding mutated
  mutated-Keeps lock f = record { keeps = λ s. refl }

  pub write_out-Keeps : (o : O) → Keeps (λ c. c.source) (write_out {D = D} o)
  write_out-Keeps o = record { keeps = λ s. refl }

abbrev pub consumed : Source → Source
consumed src = record src {
  release = false;
  released = if src.release then src.released + 1 else src.released;
}

module _ {D O X : Type 0} where
  imported-Keeps : (c : Caught (Option X)) → Keeps (λ c. c.source) (imported {D = D} {O = O} c)
  imported-Keeps (done none) = given-Keeps (λ c. c.source) _
  imported-Keeps (done (some x)) = given-Keeps (λ c. c.source) _
  imported-Keeps (panicked p) = attempt-Keeps (λ c. c.source) _

module _ {D O X A : Type 0} where
  -- whatever is done with the reader, the stream is released once
  pub with_reader_consumes :
      (src : Source) (import : Caught (Option X)) (body : X → Call D O A)
      → ((x : X) → Keeps (λ c. c.source) (body x))
      → (s : State LastError (Caller D O))
      → (with_reader src import body s).1.world.source ≡ some (consumed src)
  unfolding with_reader
  with_reader_consumes src import body h s = taken src.release
    where
      taken :
          (b : Bool)
          → (with_reader (record src { release = b }) import body s).1.world.source
            ≡ some (consumed (record src { release = b }))
      taken true = ap dropped (
          (bind-Keeps (λ c. c.source) (imported-Keeps import) h).keeps
            (record s { world = take_source (record src { release = true }) s.world }))
      taken false = refl
