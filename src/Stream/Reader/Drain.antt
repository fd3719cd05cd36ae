-- ===== src/Stream/Reader/Drain.antt =====
-- What a consumer of a guarded stream sees over any number of `get_next` calls.
use lance_c.Prelude.{
  ℕ, zero, suc, Text, text, Result, ok, err, Option, none, some, Bool, true, false, List, [], ◌∷◌,
  ◌++◌, ◌≡◌, refl, ◌||◌, inl, inr, Bool-cases, ap, replicate, All, has_nul, replace_nul,
  has_nul-replace_nul,
}
use lance_c.Ffi.Outcome.{Caught, done, panicked, Payload, Act, State, pure, continue, ◌>>=◌}
use lance_c.Ffi.LastError.{ErrorKind, LanceError, LastError, panic_payload_message}
use lance_c.Stream.Reader.{Reader, detach_item, settle, next_inner, next, release_inner, drop}

-- a stream item whose error text, if any, holds no NUL
abbrev pub IsClean : {B : Type 0} → Option (Result Text B) → Type 0
IsClean none = Unit
IsClean (some (ok b)) = Unit
IsClean (some (err m)) = has_nul m ≡ false

module _ {S B : Type 0} (poll : S → Caught (Option (Result LanceError B)) × S) where
  -- `n` calls of `get_next` in a row, whatever each returns
  pub drain : ℕ → Act LastError (Reader S) (List (Option (Result Text B)))
  drain zero = pure []
  drain (suc n) = do item ← next poll; rest ← drain n; pure (item ∷ rest)

  abbrev pub panic_item : Payload → Option (Result Text B)
  panic_item p = some (err (replace_nul (text "panic in stream: " ++ panic_payload_message p)))

  abbrev pub view_error : Caught Text → Option (Result Text B) × Bool
  view_error (done m) = (some (err (replace_nul m)), false)
  view_error (panicked p) = (panic_item p, true)

  -- What one poll of the stream is to the consumer, and whether it is the last that counts: a
  -- panic of the stream, or of an error's `Display`, is one error.
  abbrev pub view_item : Caught (Option (Result LanceError B)) → Option (Result Text B) × Bool
  view_item (panicked p) = (panic_item p, true)
  view_item (done none) = (none, false)
  view_item (done (some (ok b))) = (some (ok b), false)
  view_item (done (some (err e))) = view_error e.display

  -- The contract for `n` calls on a stream in state `i`: the views of its polls, and the end of the
  -- stream for ever once a panic was seen (`fused`), when the stream is not polled any more.
  pub view : ℕ → Bool → S → List (Option (Result Text B)) × S × Bool
  view zero fused i = ([], i, fused)
  view (suc n) true i = let v = view n true i in (none ∷ v.0, v.1, v.2)
  view (suc n) false i =
      let (c, i') = poll i in
      let (x, fused) = view_item c in let v = view n fused i' in (x ∷ v.0, v.1, v.2)

  abbrev pub reading : Option LastError → S → Bool → Bool → State LastError (Reader S)
  reading t i fused flag = record {
    tls = t;
    world = record { inner = some i; poisoned = fused; scanner_poison = flag };
  }

  next_poisoned :
      (t : Option LastError) (i : S) (flag : Bool)
      → next poll (reading t i true flag) ≡ (done none, reading t i true flag)
  unfolding next
  next_poisoned t i flag = refl

  -- what the guard makes of a poll that gave `c`
  settled :
      (c : Caught (Option (Result LanceError B))) (t : Option LastError) (i : S) (flag : Bool)
      → let (r, s) = continue c (detach_item {S = S}) (reading t i false flag) in
        let (x, fused) = view_item c in settle r s ≡ (done x, reading t i fused (fused || flag))
  unfolding settle detach_item
  settled (panicked p) t i flag = refl
  settled (done none) t i flag = refl
  settled (done (some (ok b))) t i flag = refl
  settled (done (some (err e))) t i flag = settled_error e.kind e.display
    where
      settled_error :
          (k : ErrorKind) (d : Caught Text)
          → let e' : LanceError = record { kind = k; display = d } in
            let (r, s) =
              continue (done (some (err e'))) (detach_item {S = S}) (reading t i false flag) in
            let (x, fused) = view_error d in
            settle r s ≡ (done x, reading t i fused (fused || flag))
      settled_error k (done m) = refl
      settled_error k (panicked p) = refl

  -- one call on a reader that is not fused
  next_lem :
      (t : Option LastError) (i : S) (flag : Bool)
      → let (c, i') = poll i in
        let (x, fused) = view_item c in
        next poll (reading t i false flag) ≡ (done x, reading t i' fused (fused || flag))
  unfolding next
  next_lem t i flag = let (c, i') = poll i in settled c t i' flag

  -- a fused view stays fused
  view_fused : (n : ℕ) (i : S) → (view n true i).2 ≡ true
  unfolding view
  view_fused zero i = refl
  view_fused (suc n) i = view_fused n i

  view_flag :
      (n : ℕ) (fused : Bool) (i : S) (flag : Bool)
      → ((view n fused i).2 || (fused || flag)) ≡ ((view n fused i).2 || flag)
  view_flag n false i flag = refl
  view_flag n true i flag = rw (view_fused n i)

  -- From a reader over a stream in state `i`, whose scanner flag is up if the reader is fused, `n`
  -- calls return, none of them unwinds, and together they are the view of the stream: its items
  -- with their errors made safe, one error for the first panic, and the end of the stream after it
  -- without a further poll. The scanner's flag goes up exactly if a panic was seen.
  pub drain_lem :
      (n : ℕ) (t : Option LastError) (i : S) (fused flag : Bool)
      → (fused ≡ true → flag ≡ true)
      → let v = view n fused i in
        drain n (reading t i fused flag) ≡ (done v.0, reading t v.1 v.2 (v.2 || flag))
  unfolding drain view
  drain_lem zero t i true flag h = rw (h refl)
  drain_lem zero t i false flag h = refl
  drain_lem (suc n) t i true flag h = rw (next_poisoned t i flag) (rw (drain_lem n t i true flag h))
  drain_lem (suc n) t i false flag h =
      let (c, i') = poll i in
      let (x, fused) = view_item c in
      rw (next_lem t i flag)
        (rw (drain_lem n t i' fused (fused || flag) (λ e. rw e)) (rw (view_flag n fused i' flag)))

  panic_item-IsClean : (p : Payload) → IsClean (panic_item p)
  panic_item-IsClean p = has_nul-replace_nul (text "panic in stream: " ++ panic_payload_message p)

  view_error-IsClean : (d : Caught Text) → IsClean (view_error d).0
  view_error-IsClean (done m) = has_nul-replace_nul m
  view_error-IsClean (panicked p) = panic_item-IsClean p

  view_item-IsClean : (c : Caught (Option (Result LanceError B))) → IsClean (view_item c).0
  view_item-IsClean (panicked p) = panic_item-IsClean p
  view_item-IsClean (done none) = tt
  view_item-IsClean (done (some (ok b))) = tt
  view_item-IsClean (done (some (err e))) = view_error-IsClean e.display

  view-IsClean : (n : ℕ) (fused : Bool) (i : S) → All IsClean (view n fused i).0
  unfolding view
  view-IsClean zero fused i = tt
  view-IsClean (suc n) true i = (tt, view-IsClean n true i)
  view-IsClean (suc n) false i =
      let (c, i') = poll i in (view_item-IsClean c, view-IsClean n (view_item c).1 i')

  -- From such a reader, `n` calls return a list of items in which no error text holds a NUL,
  -- whatever the stream's errors and panics say, so that `CString::new` in the consumer's callback
  -- cannot fail.
  pub drain-IsClean :
      (n : ℕ) (t : Option LastError) (i : S) (fused flag : Bool)
      → (fused ≡ true → flag ≡ true)
      → (items : List (Option (Result Text B))) × ((drain n (reading t i fused flag)).0
          ≡ done items)
        × All IsClean items
  drain-IsClean n t i fused flag h =
      ((view n fused i).0, ap (λ r. r.0) (drain_lem n t i fused flag h), view-IsClean n fused i)

  next_released :
      (s : State LastError (Reader S)) → s.world.inner ≡ none → next poll s ≡ (done none, s)
  unfolding next
  next_released s h = elim (Bool-cases s.world.poisoned) [
    | inl e ↦ rw e
    | inr e ↦ rw e (rw (h, next_inner))
  ]

  released_ends :
      (n : ℕ) (s : State LastError (Reader S))
      → s.world.inner ≡ none
      → drain n s ≡ (done (replicate n none), s)
  unfolding drain
  released_ends zero s h = refl
  released_ends (suc n) s h = rw (next_released s h) (rw (released_ends n s h))

  dropped :
      (release : S → Caught (Unit {0})) (inner : Option S) (s : State LastError (Reader S))
      → release_inner release inner s ≡ (done tt, s)
  unfolding release_inner
  dropped release none s = refl
  dropped release (some i) s = refl

  -- Dropping the reader never unwinds, also where dropping the inner stream panics; the stream is
  -- detached, and every later call would find the end of the stream and poll nothing.
  drop_ends :
      (release : S → Caught (Unit {0})) (n : ℕ) (s : State LastError (Reader S))
      → let t : State LastError (Reader S) = record s {
        world = record (s.world) { inner = none };
      } in
        (drop release s ≡ (done tt, t)) × (drain n t ≡ (done (replicate n none), t))
  unfolding drop
  drop_ends release n s = (dropped release s.world.inner _, released_ends n _ refl)
