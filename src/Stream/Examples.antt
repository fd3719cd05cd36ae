-- ===== src/Stream/Examples.antt =====
-- The guarded reader's theorems at a stream that yields two batches, an error, and then panics.
use lance_c.Prelude.{
  ℕ, zero, suc, text, Result, ok, err, Option, none, some, false, [], ◌∷◌, ◌≡◌, ◌||◌,
}
use lance_c.Ffi.Outcome.{Payload, Caught, done, panicked}
use lance_c.Ffi.LastError.{ErrorKind, LanceError}
use lance_c.Stream.Batches.Alike.{
  get_next, release_stream, without_flag, stream_calls, batch_calls, Both, AlikeItems,
  batch_calls_lem,
}
use lance_c.Stream.Reader.Drain.{drain, view, reading, drain_lem}

abbrev poll : ℕ → Caught (Option (Result LanceError ℕ)) × ℕ
poll zero = (panicked (Payload.string (text "boom")), zero)
poll (suc zero) =
    (done (some (err (record { kind = ErrorKind.io; display = done (text "disk") }))), zero)
poll (suc (suc n)) = (done (some (ok n)), suc n)

drain_lem_example :
    let v = view poll 5 false 3 in
    drain poll 5 (reading poll none 3 false false)
    ≡ (done v.0, reading poll none v.1 v.2 (v.2 || false))
drain_lem_example = drain_lem poll 5 none 3 false false (λ e. e)

-- dropping the inner stream panics
abbrev release : ℕ → Caught (Unit {0})
release n = panicked Payload.other

-- a read, the release and a read after it, where the release panics
batch_calls_lem_example :
    Both AlikeItems
      (stream_calls poll release
        (get_next ∷ release_stream ∷ get_next ∷ [])
        (reading poll none 3 false false))
      (batch_calls poll release
        (get_next ∷ release_stream ∷ get_next ∷ [])
        (without_flag (reading poll none 3 false false)))
batch_calls_lem_example =
    batch_calls_lem poll release (get_next ∷ release_stream ∷ get_next ∷ [])
      (reading poll none 3 false false)
