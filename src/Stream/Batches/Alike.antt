-- ===== src/Stream/Batches/Alike.antt =====
-- A guarded batch reader behaves as a guarded stream does.
use lance_c.Prelude.{
  Text, text, Result, ok, err, Option, none, some, Bool, true, false, List, [], ◌∷◌, ◌++◌, ◌≡◌,
  refl, replace_nul,
}
use lance_c.Ffi.Outcome.{Caught, done, panicked, Payload, Act, State, pure, continue, ◌>>=◌, ◌>>◌}
use lance_c.Ffi.LastError.{ErrorKind, LanceError, LastError, panic_payload_message}
use lance_c.Stream.Reader.{Reader, next, drop, next_inner, release_inner, settle, detach_item}
use lance_c.Stream.Batches.{
  BatchReader, next_batch, drop_batches, next_within, release_within, settle_batch, detach_batch,
}

-- the same item, or the errors that the two make of one panic
pub data AlikeItem {B : Type 0} : Option (Result Text B) → Option (Result Text B) → Type 0 where
  same : (x : Option (Result Text B)) → AlikeItem x x
  panics :
      (p : Payload)
      → AlikeItem (some (err (replace_nul (text "panic in stream: " ++ panic_payload_message p)))) (
          some
            (err (replace_nul (text "panic in record batch reader: " ++ panic_payload_message p))))

-- what the consumer of an Arrow stream calls
pub data Callback : Type 0 where
  get_next release_stream : Callback

abbrev pub without_flag :
    {S : Type 0} → State LastError (Reader S) → State LastError (BatchReader S)
without_flag s = record {
  tls = s.tls;
  world = record { inner = s.world.inner; poisoned = s.world.poisoned };
}

module _ {S : Type 0} where
  -- both return, alike, and leave the same inner reader, fuse and last error
  pub record Both {X : Type 0} (Alike : X → X → Type 0) (a : Caught X × State LastError (Reader S))
      (b : Caught X × State LastError (BatchReader S)) : Type 0 where
    pub x : X
    pub y : X
    pub after : State LastError (Reader S)
    pub streamed : a ≡ (done x, after)
    pub batched : b ≡ (done y, without_flag after)
    pub alike : Alike x y

module _ {B : Type 0} where
  abbrev pub AlikeItems : List (Option (Result Text B)) → List (Option (Result Text B)) → Type 0
  AlikeItems [] [] = Unit
  AlikeItems (x ∷ xs) (y ∷ ys) = AlikeItem x y × AlikeItems xs ys
  AlikeItems _ _ = ⊥

module _ {S B : Type 0} (poll : S → Caught (Option (Result LanceError B)) × S)
    (release : S → Caught (Unit {0})) where
  -- what the `get_next`s among the calls return
  pub stream_calls : List Callback → Act LastError (Reader S) (List (Option (Result Text B)))
  stream_calls [] = pure []
  stream_calls (get_next ∷ cs) = do x ← next poll; xs ← stream_calls cs; pure (x ∷ xs)
  stream_calls (release_stream ∷ cs) = do drop release; stream_calls cs

  pub batch_calls : List Callback → Act LastError (BatchReader S) (List (Option (Result Text B)))
  batch_calls [] = pure []
  batch_calls (get_next ∷ cs) = do x ← next_batch poll; xs ← batch_calls cs; pure (x ∷ xs)
  batch_calls (release_stream ∷ cs) = do drop_batches release; batch_calls cs

  abbrev state : Option LastError → Option S → Bool → Bool → State LastError (Reader S)
  state t i p flag = record {
    tls = t;
    world = record { inner = i; poisoned = p; scanner_poison = flag };
  }

  settled-Both :
      (c : Caught (Option (Result LanceError B))) (t : Option LastError) (i : Option S)
      (p flag : Bool)
      → Both AlikeItem
          (let (r, s) = continue c (detach_item {S = S}) (state t i p flag) in settle r s)
          (let (r, s) = continue c (detach_batch {R = S}) (without_flag (state t i p flag)) in
            settle_batch r s)
  unfolding settle detach_item settle_batch detach_batch
  settled-Both (panicked payload) t i p flag = record {
    x = _;
    y = _;
    after = state t i true true;
    streamed = refl;
    batched = refl;
    alike = panics payload;
  }
  settled-Both (done none) t i p flag = record {
    x = _;
    y = _;
    after = state t i p flag;
    streamed = refl;
    batched = refl;
    alike = same none;
  }
  settled-Both (done (some (ok b))) t i p flag = record {
    x = _;
    y = _;
    after = state t i p flag;
    streamed = refl;
    batched = refl;
    alike = same (some (ok b));
  }
  settled-Both (done (some (err e))) t i p flag = settled_error e.kind e.display
    where
      settled_error :
          (k : ErrorKind) (d : Caught Text)
          → let e' : LanceError = record { kind = k; display = d } in
            Both
              (AlikeItem {B = B})
              (let (r, s) =
                  continue (done (some (err e'))) (detach_item {S = S}) (state t i p flag) in
                settle r s)
              (let (r, s) =
                  continue
                    (done (some (err e')))
                    (detach_batch {R = S})
                    (without_flag (state t i p flag)) in
                settle_batch r s)
      settled_error k (done m) = record {
        x = _;
        y = _;
        after = state t i p flag;
        streamed = refl;
        batched = refl;
        alike = same (some (err (replace_nul m)));
      }
      settled_error k (panicked payload) = record {
        x = _;
        y = _;
        after = state t i true true;
        streamed = refl;
        batched = refl;
        alike = panics payload;
      }

  next-Both :
      (t : Option LastError) (i : Option S) (p flag : Bool)
      → Both AlikeItem
          (next poll (state t i p flag))
          (next_batch poll (without_flag (state t i p flag)))
  unfolding next next_batch next_inner next_within
  next-Both t i true flag = record {
    x = _;
    y = _;
    after = state t i true flag;
    streamed = refl;
    batched = refl;
    alike = same none;
  }
  next-Both t none false flag = record {
    x = _;
    y = _;
    after = state t none false flag;
    streamed = refl;
    batched = refl;
    alike = same none;
  }
  next-Both t (some i) false flag = let (c, i') = poll i in settled-Both c t (some i') false flag

  drop_both :
      (t : Option LastError) (i : Option S) (p flag : Bool)
      → (drop release (state t i p flag) ≡ (done tt, state t none p flag))
        × (drop_batches release (without_flag (state t i p flag))
            ≡ (done tt, without_flag (state t none p flag)))
  unfolding drop drop_batches release_inner release_within
  drop_both t none p flag = (refl, refl)
  drop_both t (some i) p flag = (refl, refl)

  -- Whatever the calls on an exported stream, in any order, releases included, and whatever panics:
  -- a guarded batch reader returns from all of them, as a guarded stream over the same source does,
  -- with the same items except for the words that name the source of a panic, and it ends
  -- with the same source, the same fuse and the same last error of the thread.
  pub batch_calls_lem :
      (cs : List Callback) (s : State LastError (Reader S))
      → Both AlikeItems (stream_calls cs s) (batch_calls cs (without_flag s))
  unfolding stream_calls batch_calls
  batch_calls_lem [] s = record {
    x = [];
    y = [];
    after = s;
    streamed = refl;
    batched = refl;
    alike = tt;
  }
  batch_calls_lem (get_next ∷ cs) s =
      let now = next-Both s.tls s.world.inner s.world.poisoned s.world.scanner_poison in
      let later = batch_calls_lem cs now.after in
      record {
        x = now.x ∷ later.x;
        y = now.y ∷ later.y;
        after = later.after;
        streamed = rw now.streamed (rw later.streamed refl);
        batched = rw now.batched (rw later.batched refl);
        alike = (now.alike, later.alike);
      }
  batch_calls_lem (release_stream ∷ cs) s =
      let (streamed, batched) =
        drop_both s.tls s.world.inner s.world.poisoned s.world.scanner_poison in
      let t = record s { world = record (s.world) { inner = none } } in
      let later = batch_calls_lem cs t in
      record {
        x = later.x;
        y = later.y;
        after = later.after;
        streamed = rw streamed later.streamed;
        batched = rw batched later.batched;
        alike = later.alike;
      }
