-- ===== src/Stream/Reader.antt =====
-- `GuardedReader` of src/stream_guard.rs. The inner stream, the runtime that drives it and the Arrow
-- schema conversion are not of this program: `poll` is one
-- `handle.block_on(inner.next())`, and `release` drops the inner stream.
pub mod Drain
use lance_c.Prelude.{
  Text, text, Result, ok, err, Option, none, some, Bool, true, false, ◌++◌, replace_nul,
  if◌then◌else◌,
}
use lance_c.Ffi.Outcome.{
  Caught, done, panicked, Payload, Act, pure, lift, catch_unwind, gets_world, put_world, ◌>>=◌,
  ◌>>◌,
}
use lance_c.Ffi.LastError.{LanceError, LastError, panic_payload_message}
use lance_c.Ffi.Guard.{swallow_unwind}

-- An error that the stream's consumer formats: a text of its own, with no NUL in it.
unfoldable pub ffi_safe_stream_error : Text → Text
ffi_safe_stream_error message = replace_nul message

-- `poisoned` is the reader's own fuse, `scanner_poison` the flag that it shares with the scanner.
pub record Reader (S : Type 0) : Type 0 where
  pub inner : Option S
  pub poisoned : Bool
  pub scanner_poison : Bool

module _ {E : Type 0} where
  -- The error of a schema conversion is formatted under the guard too.
  abbrev pub detach_text : Caught Text → Caught (Result Text E)
  detach_text (done message) = done (err (replace_nul message))
  detach_text (panicked p) = panicked p

  unfoldable pub detach_schema_error : Caught (Result LanceError E) → Caught (Result Text E)
  detach_schema_error (done (ok schema)) = done (ok schema)
  detach_schema_error (done (err e)) = detach_text e.display
  detach_schema_error (panicked p) = panicked p

  abbrev pub or_export_error : Caught (Result Text E) → Result Text E
  or_export_error (done result) = result
  or_export_error (panicked p) =
      err (replace_nul (text "panic exporting Arrow schema: " ++ panic_payload_message p))

  -- `preflight_schema`, on what `FFI_ArrowSchema::try_from` does for the schema
  unfoldable pub preflight_schema : Caught (Result LanceError E) → Result Text E
  unfolding detach_schema_error panic_payload_message
  preflight_schema conversion = or_export_error (detach_schema_error conversion)

module _ {S B : Type 0} where
  -- the closure under the guard: the error is formatted there, since `Display` may panic
  unfoldable pub detach_item :
      Option (Result LanceError B) → Act LastError (Reader S) (Option (Result Text B))
  unfolding ffi_safe_stream_error
  detach_item none = pure none
  detach_item (some (ok batch)) = pure (some (ok batch))
  detach_item (some (err e)) = do
    message ← lift e.display
    pure (some (err (ffi_safe_stream_error message)))

  -- the two flags that a caught panic sets, and the one error that it becomes
  unfoldable pub settle :
      Caught (Option (Result Text B)) → Act LastError (Reader S) (Option (Result Text B))
  unfolding ffi_safe_stream_error panic_payload_message
  settle (done item) = pure item
  settle (panicked p) = do
    put_world (λ r. record r { poisoned = true; scanner_poison = true })
    pure (some (err (ffi_safe_stream_error (text "panic in stream: " ++ panic_payload_message p))))

module _ {S B : Type 0} (poll : S → Caught (Option (Result LanceError B)) × S) where
  -- one `inner.next()`, which changes the inner stream in place, also where it panics
  unfoldable pub poll_inner : S → Act LastError (Reader S) (Option (Result LanceError B))
  poll_inner stream s =
      let (item, stream') = poll stream in
      (item, record s { world = record (s.world) { inner = some stream' } })

  unfoldable pub next_inner : Option S → Act LastError (Reader S) (Option (Result Text B))
  unfolding poll_inner detach_item settle
  next_inner none = pure none
  next_inner (some stream) = do
    outcome ← catch_unwind (do item ← poll_inner stream; detach_item item)
    settle outcome

  -- `Iterator::next` of `GuardedReader`
  unfoldable pub next : Act LastError (Reader S) (Option (Result Text B))
  unfolding next_inner
  next s = if s.world.poisoned then (done none, s) else next_inner s.world.inner s

module _ {S : Type 0} (release : S → Caught (Unit {0})) where
  unfoldable pub release_inner : Option S → Act LastError (Reader S) (Unit {0})
  unfolding swallow_unwind
  release_inner none = pure tt
  release_inner (some stream) = swallow_unwind (lift (release stream))

  -- `Drop`: the inner stream is detached before it is dropped
  unfoldable pub drop : Act LastError (Reader S) (Unit {0})
  unfolding release_inner
  drop = do
    inner ← gets_world (λ r. r.inner)
    put_world (λ r. record r { inner = none })
    release_inner inner

module _ {S E : Type 0} where
  abbrev pub construct : S → Bool → Result Text E → Caught (Reader S)
  construct inner scanner_poison (ok _) =
      done (record { inner = some inner; poisoned = false; scanner_poison = scanner_poison })
  construct inner scanner_poison (err message) =
      panicked (Payload.string (text "Arrow schema cannot be exported: " ++ message))

  -- `GuardedReader::new`, which panics where the schema cannot be exported
  unfoldable pub new : S → Caught (Result LanceError E) → Bool → Caught (Reader S)
  unfolding preflight_schema
  new inner conversion scanner_poison = construct inner scanner_poison (preflight_schema conversion)
