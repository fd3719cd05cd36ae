-- ===== src/Stream/Batches.antt =====
-- `GuardedRecordBatchReader` and `guarded_ffi_stream_from_reader` of src/stream_guard.rs. The reader
-- within and the Arrow schema conversion are not of this program: `read` is one `inner.next()`, and
-- `release` drops the inner reader.
pub mod Alike
use lance_c.Prelude.{
  Text, text, Result, ok, err, Option, none, some, Bool, true, false, ◌++◌, if◌then◌else◌,
}
use lance_c.Ffi.Outcome.{
  Caught, done, panicked, Act, pure, lift, catch_unwind, gets_world, put_world, ◌>>=◌, ◌>>◌,
}
use lance_c.Ffi.LastError.{LanceError, LastError, panic_payload_message}
use lance_c.Ffi.Guard.{swallow_unwind}
use lance_c.Stream.Reader.{ffi_safe_stream_error, preflight_schema}

pub record BatchReader (R : Type 0) : Type 0 where
  pub inner : Option R
  pub poisoned : Bool

module _ {R B : Type 0} where
  unfoldable pub detach_batch :
      Option (Result LanceError B) → Act LastError (BatchReader R) (Option (Result Text B))
  unfolding ffi_safe_stream_error
  detach_batch none = pure none
  detach_batch (some (ok batch)) = pure (some (ok batch))
  detach_batch (some (err e)) = do
    message ← lift e.display
    pure (some (err (ffi_safe_stream_error message)))

  unfoldable pub settle_batch :
      Caught (Option (Result Text B)) → Act LastError (BatchReader R) (Option (Result Text B))
  unfolding ffi_safe_stream_error panic_payload_message
  settle_batch (done item) = pure item
  settle_batch (panicked p) = do
    put_world (λ r. record r { poisoned = true })
    pure (
        some (
          err (
            ffi_safe_stream_error
              (text "panic in record batch reader: " ++ panic_payload_message p))))

module _ {R B : Type 0} (read : R → Caught (Option (Result LanceError B)) × R) where
  -- one `inner.next()`, which changes the inner reader in place, also where it panics
  unfoldable pub read_inner : R → Act LastError (BatchReader R) (Option (Result LanceError B))
  read_inner reader s =
      let (item, reader') = read reader in
      (item, record s { world = record (s.world) { inner = some reader' } })

  unfoldable pub next_within : Option R → Act LastError (BatchReader R) (Option (Result Text B))
  unfolding read_inner detach_batch settle_batch
  next_within none = pure none
  next_within (some reader) = do
    outcome ← catch_unwind (do item ← read_inner reader; detach_batch item)
    settle_batch outcome

  -- `Iterator::next` of `GuardedRecordBatchReader`
  unfoldable pub next_batch : Act LastError (BatchReader R) (Option (Result Text B))
  unfolding next_within
  next_batch s = if s.world.poisoned then (done none, s) else next_within s.world.inner s

module _ {R : Type 0} (release : R → Caught (Unit {0})) where
  unfoldable pub release_within : Option R → Act LastError (BatchReader R) (Unit {0})
  unfolding swallow_unwind
  release_within none = pure tt
  release_within (some reader) = swallow_unwind (lift (release reader))

  -- `Drop`: the inner reader is detached before it is dropped
  unfoldable pub drop_batches : Act LastError (BatchReader R) (Unit {0})
  unfolding release_within
  drop_batches = do
    inner ← gets_world (λ r. r.inner)
    put_world (λ r. record r { inner = none })
    release_within inner

module _ {R E : Type 0} where
  abbrev pub exported : R → Result Text E → Result Text (BatchReader R)
  exported reader (err message) = err message
  exported reader (ok _) = ok (record { inner = some reader; poisoned = false })

  -- `guarded_ffi_stream_from_reader`, on what `FFI_ArrowSchema::try_from` does for the schema
  unfoldable pub guarded_ffi_stream_from_reader :
      R → Caught (Result LanceError E) → Result Text (BatchReader R)
  unfolding preflight_schema
  guarded_ffi_stream_from_reader reader conversion = exported reader (preflight_schema conversion)
