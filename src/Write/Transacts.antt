-- ===== src/Write/Transacts.antt =====
-- How a call that changes the dataset behaves, whichever it is: it is refused with everything as it
-- was, or it makes one change under the lock.
use lance_c.Prelude.{
  ℤ, pos, String, Option, none, some, Bool, true, false, Result, ok, err, ◌≡◌, refl, sym, ap, subst,
  ◌∙◌,
}
use lance_c.Ffi.Outcome.{Caught, done, panicked, State, continue}
use lance_c.Ffi.LastError.{LanceError, LastError}
use lance_c.Dataset.{Lock, Mutation, with_mut, swapped}
use lance_c.Write.{
  Source, Caller, Call, given, attempt, proceed, ◌>>=◌, ◌>>◌, refuse_if, require, dataset_pointer,
  stream_pointer, drop_reader, take_source, imported, with_reader, stored, mutated, written,
  write_out,
}

-- A change of the dataset, with what its result makes of the result slot.
pub record Change (D O : Type 0) : Type 1 where
  pub R : Type 0
  pub change : Mutation D (Result LanceError R)
  pub report : R → Option O → Option O

abbrev pub result_of : {R : Type 0} → Caught (Result LanceError R) → Caught (Result LanceError ℤ)
result_of (done (ok x)) = done (ok (pos 0))
result_of (done (err e)) = done (err e)
result_of (panicked p) = panicked p

-- the lock after a change: its working copy if it returned, else the old dataset in a poisoned lock
abbrev pub lock_after : {D R : Type 0} → Lock D → Caught (Result LanceError R) × D → Lock D
lock_after lock (done r, working) = record lock { inner = working }
lock_after lock (panicked p, working) = record lock { lock_poisoned = true }

abbrev pub out_after :
    {R O : Type 0} → (R → Option O → Option O) → Option O → Caught (Result LanceError R) → Option O
out_after report out (done (ok x)) = report x out
out_after report out _ = out

abbrev pub IsFailure : {A : Type 0} → Caught (Result LanceError A) → Type 0
IsFailure (done (ok a)) = ⊥
IsFailure _ = Unit

module _ {D O : Type 0} where
  -- From this dataset and this result slot: refused, or one change that is allowed.
  pub data Transacts (Allowed : Change D O → Type 1) (dataset : Option (Lock D)) (out : Option O)
      : Caught (Result LanceError ℤ) × State LastError (Caller D O) → Type 1 where
    refused :
        (r : Caught (Result LanceError ℤ)) (t : State LastError (Caller D O))
        → IsFailure r
        → t.world.dataset ≡ dataset
        → t.world.out ≡ out
        → Transacts Allowed dataset out (r, t)
    changed :
        (c : Change D O) (lock : Lock D) (t : State LastError (Caller D O))
        → Allowed c
        → dataset ≡ some lock
        → t.world.dataset ≡ some (lock_after lock (c.change lock.inner))
        → t.world.out ≡ out_after c.report out (c.change lock.inner).0
        → Transacts Allowed dataset out (result_of (c.change lock.inner).0, t)

  -- a state in which nothing has changed
  pub record Same (dataset : Option (Lock D)) (out : Option O) (s : State LastError (Caller D O))
      : Type 0 where
    pub dataset_same : s.world.dataset ≡ dataset
    pub out_same : s.world.out ≡ out

  -- what follows a change, if it succeeds: the result is reported, and 0 is returned
  pub record Reports {R : Type 0} (k : R → Call D O ℤ) (report : R → Option O → Option O)
      : Type 0 where
    pub returns : (x : R) (s : State LastError (Caller D O)) → (k x s).0 ≡ done (ok (pos 0))
    pub keeps :
        (x : R) (s : State LastError (Caller D O)) → (k x s).1.world.dataset ≡ s.world.dataset
    pub writes :
        (x : R) (s : State LastError (Caller D O)) → (k x s).1.world.out ≡ report x s.world.out

  -- a change whose result is not asked for, and one whose result is
  pub silent-Reports : {R : Type 0} → Reports {R = R} (λ x. given (ok (pos 0))) (λ x o. o)
  silent-Reports = record { returns = λ x s. refl; keeps = λ x s. refl; writes = λ x s. refl }

  pub written-Reports : Reports (λ x. write_out x >> given (ok (pos 0))) written
  unfolding ◌>>=◌
  written-Reports = record { returns = λ x s. refl; keeps = λ x s. refl; writes = λ x s. refl }

  pub swapped_then :
      {R : Type 0} (lock : Lock D) (k : R → Call D O ℤ) (report : R → Option O → Option O)
      → Reports k report
      → (r : Caught (Result LanceError R) × D) (s : State LastError (Caller D O))
      → let (c, t) = stored (swapped r (record { tls = s.tls; world = lock })) s.world in
        let (q, u) = continue c (λ a. proceed a k) t in
        (q ≡ result_of r.0)
        × (u.world.dataset ≡ some (lock_after lock r))
        × (u.world.out ≡ out_after report s.world.out r.0)
  swapped_then lock k report g (done (ok x), d) s = (g.returns x _, g.keeps x _, g.writes x _)
  swapped_then lock k report g (done (err e), d) s = (refl, refl, refl)
  swapped_then lock k report g (panicked p, d) s = (refl, refl, refl)

  module _ {Allowed : Change D O → Type 1} {dataset : Option (Lock D)} {out : Option O} where
    module _ {A : Type 0} (f : A → Call D O ℤ) (s : State LastError (Caller D O))
        (same : Same dataset out s) where
      pub after_given :
          (r : Result LanceError A)
          → ((a : A) → r ≡ ok a → Transacts Allowed dataset out (f a s))
          → Transacts Allowed dataset out ((given r >>= f) s)
      unfolding ◌>>=◌
      after_given (ok a) h = h a refl
      after_given (err e) h = refused _ _ tt same.dataset_same same.out_same

      pub after_attempt :
          (c : Caught (Result LanceError A))
          → ((a : A) → c ≡ done (ok a) → Transacts Allowed dataset out (f a s))
          → Transacts Allowed dataset out ((attempt c >>= f) s)
      unfolding ◌>>=◌
      after_attempt (done (ok a)) h = h a refl
      after_attempt (done (err e)) h = refused _ _ tt same.dataset_same same.out_same
      after_attempt (panicked p) h = refused _ _ tt same.dataset_same same.out_same

      pub after_require :
          (o : Option A) (message : String)
          → ((a : A) → o ≡ some a → Transacts Allowed dataset out (f a s))
          → Transacts Allowed dataset out ((require o message >>= f) s)
      unfolding ◌>>=◌
      after_require none message h = refused _ _ tt same.dataset_same same.out_same
      after_require (some a) message h = h a refl

    module _ (f : Unit {0} → Call D O ℤ) (s : State LastError (Caller D O))
        (same : Same dataset out s) where
      pub after_refuse_if :
          (b : Bool) (message : String)
          → (b ≡ false → Transacts Allowed dataset out (f tt s))
          → Transacts Allowed dataset out ((refuse_if b message >>= f) s)
      unfolding ◌>>=◌
      after_refuse_if true message h = refused _ _ tt same.dataset_same same.out_same
      after_refuse_if false message h = h refl

    pub after_pointer :
        (f : Option (Lock D) → Call D O ℤ) (s : State LastError (Caller D O))
        → Same dataset out s
        → Transacts Allowed dataset out (f s.world.dataset s)
        → Transacts Allowed dataset out ((dataset_pointer >>= f) s)
    unfolding ◌>>=◌
    after_pointer f s same h = h

    pub after_stream :
        (f : Option Source → Call D O ℤ) (s : State LastError (Caller D O))
        → Same dataset out s
        → Transacts Allowed dataset out (f s.world.source s)
        → Transacts Allowed dataset out ((stream_pointer >>= f) s)
    unfolding ◌>>=◌
    after_stream f s same h = h

    module _ {R : Type 0} (lock : Lock D) (f : Mutation D (Result LanceError R)) where
      pub after_change :
          (k : R → Call D O ℤ) (report : R → Option O → Option O)
          → Reports k report
          → (s : State LastError (Caller D O)) → Same dataset out s
          → s.world.dataset ≡ some lock
          → Allowed (record { R = R; change = f; report = report })
          → Transacts Allowed dataset out ((mutated lock f >>= k) s)
      unfolding ◌>>=◌ mutated with_mut
      after_change k report g s same here allowed =
          let (result, locked, reported) = swapped_then lock k report g (f lock.inner) s in
          subst (λ r. Transacts Allowed dataset out (r, ((mutated lock f >>= k) s).1)) (sym result)
            (changed (record { R = R; change = f; report = report }) lock _ allowed
              (sym same.dataset_same ∙ here) locked
              (reported ∙ ap (λ o. out_after report o (f lock.inner).0) same.out_same))

    -- what is done with a reader, between the import of the stream and its release
    released_after :
        {q : Caught (Result LanceError ℤ) × State LastError (Caller D O)}
        → Transacts Allowed dataset out q
        → Transacts Allowed dataset out (q.0, record (q.1) { world = drop_reader q.1.world })
    released_after (refused r t h k l) = refused r _ h k l
    released_after (changed c lock t a h k l) = changed c lock _ a h k l

    after_import :
        {X : Type 0} (import : Caught (Option X)) (body : X → Call D O ℤ)
        (s : State LastError (Caller D O))
        → Same dataset out s
        → ((x : X) → import ≡ done (some x) → Transacts Allowed dataset out (body x s))
        → Transacts Allowed dataset out ((imported import >>= body) s)
    unfolding ◌>>=◌
    after_import (done none) body s same h = refused _ _ tt same.dataset_same same.out_same
    after_import (done (some x)) body s same h = h x refl
    after_import (panicked p) body s same h = refused _ _ tt same.dataset_same same.out_same

    pub after_reader :
        {X : Type 0} (src : Source) (import : Caught (Option X)) (body : X → Call D O ℤ)
        (s : State LastError (Caller D O))
        → Same dataset out s
        → ((x : X) (t : State LastError (Caller D O))
            → Same dataset out t
            → import ≡ done (some x)
            → Transacts Allowed dataset out (body x t))
        → Transacts Allowed dataset out (with_reader src import body s)
    unfolding with_reader
    after_reader src import body s same h = taken src.release
      where
        moved :
            Same dataset out
              (record s { world = take_source (record src { release = true }) s.world })
        moved = record { dataset_same = same.dataset_same; out_same = same.out_same }

        taken :
            (b : Bool)
            → Transacts Allowed dataset out (with_reader (record src { release = b }) import body s)
        taken true = released_after (after_import import body _ moved (λ x e. h x _ moved e))
        taken false = refused _ _ tt same.dataset_same same.out_same
