-- ===== src/Scanner/Iterate/View.antt =====
-- What a client sees of a scan over any number of `lance_scanner_next` calls.
use lance_c.Prelude.{
  ℕ, zero, suc, ℤ, pos, Text, Option, none, some, Result, ok, err, if◌then◌else◌, ◌≡◌, refl, List,
  [], ◌∷◌, Bool-cases, if_true, if_false, sym, ◌∙◌, inl, inr, ap,
}
use lance_c.Ffi.Outcome.{Caught, done, panicked, Payload, State, pure, lift, ◌>>=◌}
use lance_c.Ffi.LastError.{
  ErrorKind, LanceError, LastError, error_code_from_kind, sanitize, set_last_error, set_lance_error,
  clear_last_error,
}
use lance_c.Ffi.Report.{panic_report, displayed, panic_report_clean, sanitize_lem}
use lance_c.Scanner.Config.{External}
use lance_c.Scanner.Handle.{Handle, Memory, minus_one, set_poison, scanner_poison_check}
use lance_c.Scanner.Handle.Report.{poison_report}
use lance_c.Scanner.Iterate.{
  Engine, Call, keep_stream, lazily, started, materialize_stream, next_inner, next, or_null,
  next_step, report_item, fail_null,
}

-- what C reads after a call: the returned code, `*out`, and the error slot
pub record Seen (B : Type 0) : Type 0 where
  pub code : ℤ
  pub out : Option B
  pub error : Option LastError

module _ {B : Type 0} where
  abbrev pub failed_with : LastError → Seen B
  failed_with e = record { code = minus_one; out = none; error = some e }

module _ {x : External} {S B : Type 0} where
  -- a panic is seen once, and poisons the handle
  abbrev pub after_panic : Payload → Handle x S → Seen B × Handle x S
  after_panic p h = (failed_with (panic_report p), set_poison h)

  abbrev pub after_error : LanceError → Handle x S → Seen B × Handle x S
  after_error e h = shown e.display
    where
      shown : Caught Text → Seen B × Handle x S
      shown (done m) = (failed_with (displayed (error_code_from_kind e.kind) (done m)), h)
      shown (panicked p) = after_panic p h

  abbrev pub after_item : Caught (Option (Result LanceError B)) → Handle x S → Seen B × Handle x S
  after_item (panicked p) h = after_panic p h
  after_item (done none) h = (record { code = pos 1; out = none; error = none }, h)
  after_item (done (some (ok b))) h = (record { code = pos 0; out = some b; error = none }, h)
  after_item (done (some (err e))) h = after_error e h

module _ {x : External} {S B : Type 0} (engine : Engine x S B) where
  abbrev pub after_advance : S → Handle x S → Seen B × Handle x S
  after_advance st h =
      let (r, st') = engine.advance st in after_item r (record h { stream = some st' })

  abbrev pub after_open : Caught (Result LanceError S) → Handle x S → Seen B × Handle x S
  after_open (panicked p) h = after_panic p h
  after_open (done (err e)) h = after_error e h
  after_open (done (ok st)) h = after_advance st h

  abbrev pub after_lazily : Option S → Handle x S → Seen B × Handle x S
  after_lazily (some st) h = after_advance st h
  after_lazily none h =
      after_open (engine.open_stream (started h.config)) (record h { config = started h.config })

  -- The contract of one call: a poisoned handle is dead, a handle with a stream advances it, and one
  -- without opens it first, and again at the next call if that failed.
  abbrev pub after_next : Handle x S → Seen B × Handle x S
  after_next h =
      if h.config.poisoned then (failed_with poison_report, h) else after_lazily h.stream h

  abbrev pub memory : Option LastError → Handle x S → Option B → State LastError (Memory x S B)
  memory t h o = record { tls = t; world = record { scanner = some h; out = some o } }

  abbrev pub seen_in : Seen B × Handle x S → Caught ℤ × State LastError (Memory x S B)
  seen_in (v, h) = (done v.code, memory v.error h v.out)

  abbrev pub show_error :
      LanceError
      → Option LastError
      → Handle x S
      → Option B
      → Caught ℤ × State LastError (Memory x S B)
  show_error e t h o = let (r, s) = fail_null e minus_one (memory t h o) in or_null minus_one r s

  fail_null_lem :
      (k : ErrorKind) (d : Caught Text) (t : Option LastError) (h : Handle x S) (o : Option B)
      → show_error (record { kind = k; display = d }) t h o
        ≡ seen_in (after_error (record { kind = k; display = d }) h)
  unfolding set_lance_error set_last_error
  fail_null_lem k (done m) t h o = rw (sanitize_lem m)
  fail_null_lem k (panicked p) t h o = rw (panic_report_clean p)

  -- a guarded part of the call, with the arm for its panic
  abbrev guarded :
      Call x S B ℤ
      → Option LastError
      → Handle x S
      → Option B
      → Caught ℤ × State LastError (Memory x S B)
  guarded m t h o = let (r, s) = m (memory t h o) in or_null minus_one r s

  item_lem :
      (r : Caught (Option (Result LanceError B))) (t : Option LastError) (h : Handle x S)
      (o : Option B)
      → guarded (lift r >>= report_item) t h o ≡ seen_in (after_item r h)
  unfolding set_last_error clear_last_error
  item_lem (panicked p) t h o = rw (panic_report_clean p)
  item_lem (done none) t h o = refl
  item_lem (done (some (ok b))) t h o = refl
  item_lem (done (some (err e))) t h o = fail_null_lem e.kind e.display t h o

  advance_lem :
      (st : S) (t : Option LastError) (h : Handle x S) (o : Option B)
      → guarded (next_step engine (ok st)) t h o ≡ seen_in (after_advance st h)
  unfolding set_last_error set_lance_error clear_last_error
  advance_lem st t h o =
      let (r, st') = engine.advance st in item_lem r t (record h { stream = some st' }) o

  opened_lem :
      (r : Caught (Result LanceError S)) (t : Option LastError) (h : Handle x S) (o : Option B)
      → guarded (lift r >>= keep_stream >>= next_step engine) t h o ≡ seen_in (after_open r h)
  unfolding set_last_error set_lance_error clear_last_error
  opened_lem (panicked p) t h o = rw (panic_report_clean p)
  opened_lem (done (err e)) t h o = fail_null_lem e.kind e.display t h o
  opened_lem (done (ok st)) t h o = advance_lem st t (record h { stream = some st }) o

  lazily_lem :
      (stream : Option S) (t : Option LastError) (h : Handle x S) (o : Option B)
      → guarded (lazily engine.open_stream h stream >>= next_step engine) t h o
        ≡ seen_in (after_lazily stream h)
  unfolding materialize_stream
  lazily_lem (some st) t h o = advance_lem st t h o
  lazily_lem none t h o =
      opened_lem (engine.open_stream (started h.config)) t (record h { config = started h.config })
        o

  -- With both pointers valid, one call returns what its contract says, whatever the error slot and
  -- `*out` held before, and never unwinds.
  next_lem :
      (t : Option LastError) (h : Handle x S) (o : Option B)
      → next engine (memory t h o) ≡ seen_in (after_next h)
  unfolding next next_inner scanner_poison_check sanitize set_last_error
  next_lem t h o = elim (Bool-cases h.config.poisoned) [
    | inl e ↦ if_true _ _ e ∙ ap seen_in (sym (if_true _ _ e))
    | inr e ↦ if_false _ _ e ∙ (lazily_lem h.stream t h none ∙ ap seen_in (sym (if_false _ _ e)))
  ]

  -- what a client sees of `n` calls in a row, whatever each returns
  pub calls : ℕ → Call x S B (List (Seen B))
  calls zero = pure []
  calls (suc n) = do code ← next engine; seen ← look code; rest ← calls n; pure (seen ∷ rest)
    where
      look : ℤ → Call x S B (Seen B)
      look code s = (done (record { code = code; out = read s.world.out; error = s.tls }), s)
        where
          read : Option (Option B) → Option B
          read none = none
          read (some o) = o

  -- the contract of `n` calls: that of one, again and again
  pub view : ℕ → Handle x S → List (Seen B)
  view zero h = []
  view (suc n) h = let (v, h') = after_next h in v ∷ view n h'

  -- From any handle, any number of calls return, none of them unwinds, and what the client sees is
  -- the view: the stream is opened once and its items come in order, each with its code, batch and
  -- error slot; a failed opening is tried again; and from the first panic on, every call is refused.
  pub calls_lem :
      (n : ℕ) (t : Option LastError) (h : Handle x S) (o : Option B)
      → (calls n (memory t h o)).0 ≡ done (view n h)
  unfolding calls view
  calls_lem zero t h o = refl
  calls_lem (suc n) t h o =
      let (v, h') = after_next h in rw (next_lem t h o) (rw (calls_lem n v.error h' v.out))
