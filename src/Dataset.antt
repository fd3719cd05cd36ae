-- ===== src/Dataset.antt =====
-- The dataset handle (src/dataset.rs): a snapshot behind a lock, and the mutation that swaps it. The
-- dataset is a type of another library, and the mutation a parameter, which changes its working copy
-- in place and may panic.
pub mod Rollback
mod Examples
use lance_c.Prelude.{Bool, true, false, Result}
use lance_c.Ffi.Outcome.{
  Caught, done, panicked, Payload, Act, State, pure, gets_world, put_world, resume_unwind,
  catch_unwind, ◌>>=◌, ◌>>◌,
}
use lance_c.Ffi.LastError.{LanceError, LastError}
use lance_c.Ffi.Guard.{ffi_try}

-- `RwLock<Arc<Dataset>>`: the lock is poisoned by a panic that unwinds while it is held for writing.
pub record Lock (D : Type 0) : Type 0 where
  pub inner : D
  pub lock_poisoned : Bool

-- `f` on the working copy, which only the closure sees
abbrev pub Mutation : Type 0 → Type 0 → Type 0
Mutation D R = D → Caught R × D

module _ {D R : Type 0} where
  abbrev pub swapped : Caught R × D → Act LastError (Lock D) R
  swapped (done ret, working) = do put_world (λ l. record l { inner = working }); pure ret
  swapped (panicked p, working) = do
    put_world (λ l. record l { lock_poisoned = true })
    resume_unwind p

  -- `with_mut`: the lock is taken whether it is poisoned or not
  unfoldable pub with_mut : Mutation D R → Act LastError (Lock D) R
  with_mut f = do inner ← gets_world (λ l. l.inner); swapped (f inner)

module _ {D : Type 0} where
  -- `snapshot`, which ignores a poisoned lock too
  unfoldable pub snapshot : Act LastError (Lock D) D
  snapshot = gets_world (λ l. l.inner)
