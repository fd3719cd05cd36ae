-- ===== src/Dispatcher/Order.antt =====
-- Every completion is delivered exactly once, in the order of dispatch, with its own error.
use lance_c.Prelude.{
  Text, Option, none, some, Bool, true, false, List, [], ◌∷◌, ◌++◌, map, length, ◌≡◌, refl, sym, ap,
  ◌∙◌, replicate, replace_nul,
}
use lance_c.Ffi.LastError.{ErrorCode, LastError, set_last_error, clear_last_error}
use lance_c.Ffi.Report.{sanitize_lem}
use lance_c.Dispatcher.{
  Message, Channel, Callback, deliver_message, dispatch_message, receive, Event, dispatch, turn,
  happen, run,
}

-- what a callback finds in the error slot of its thread
abbrev pub reported : Option (ErrorCode × Text) → Option LastError
reported none = none
reported (some (code, message)) = some (record { code = code; message = replace_nul message })

abbrev pub expected : Message → Message × Option LastError
expected m = (m, reported m.error)

abbrev pub dispatched : List Event → List Message
dispatched [] = []
dispatched (dispatch tls m ∷ es) = m ∷ dispatched es
dispatched (turn tls ∷ es) = dispatched es

-- all completions that were or will be delivered, in order
abbrev pub pending : Channel → List (Message × Option LastError)
pending c = c.invoked ++ map expected c.queue

append_assoc : {A : Type 0} (xs ys zs : List A) → (xs ++ ys) ++ zs ≡ xs ++ (ys ++ zs)
append_assoc [] ys zs = refl
append_assoc (x ∷ xs) ys zs = ap (λ l. x ∷ l) (append_assoc xs ys zs)

map-append : {A B : Type 0} (f : A → B) (xs ys : List A) → map f (xs ++ ys) ≡ map f xs ++ map f ys
map-append f [] ys = refl
map-append f (x ∷ xs) ys = ap (λ l. f x ∷ l) (map-append f xs ys)

append_nil : {A : Type 0} (l : List A) → l ++ [] ≡ l
append_nil [] = refl
append_nil (x ∷ l) = ap (λ m. x ∷ m) (append_nil l)

abbrev pub idle : Channel
idle = record { queue = []; invoked = [] }

module _ (callback : Callback) where
  pub delivered :
      (m : Message) (tls : Option LastError) (c : Channel)
      → (deliver_message callback m (record { tls = tls; world = c })).1.world
        ≡ record c { invoked = c.invoked ++ expected m ∷ [] }
  unfolding deliver_message set_last_error clear_last_error
  delivered m tls c = by_error m.error
    where
      by_error :
          (e : Option (ErrorCode × Text))
          → (deliver_message callback
              (record m { error = e })
              (record { tls = tls; world = c })).1.world
            ≡ record c { invoked = c.invoked ++ expected (record m { error = e }) ∷ [] }
      by_error none = refl
      by_error (some (code, message)) = rw (sanitize_lem message)

  -- a turn moves one completion from the queue to those that were entered
  turn_pending :
      (started : Bool) (tls : Option LastError) (q : List Message)
      (i : List (Message × Option LastError))
      → pending (happen callback started (turn tls) (record { queue = q; invoked = i }))
        ≡ i ++ map expected q
  unfolding receive
  turn_pending started tls [] i = refl
  turn_pending started tls (m ∷ ms) i =
      ap pending (delivered m tls (record { queue = ms; invoked = i }))
      ∙ append_assoc i (expected m ∷ []) (map expected ms)

  queued_pending :
      (tls : Option LastError) (m : Message) (c : Channel)
      → pending (happen callback true (dispatch tls m) c) ≡ pending c ++ expected m ∷ []
  unfolding dispatch_message
  queued_pending tls m c =
      ap (λ l. c.invoked ++ l) (map-append expected c.queue (m ∷ []))
      ∙ sym (append_assoc c.invoked (map expected c.queue) (expected m ∷ []))

  -- with no dispatcher, the completion is entered at once on the dispatching thread
  direct_pending :
      (tls : Option LastError) (m : Message) (i : List (Message × Option LastError))
      → happen callback false (dispatch tls m) (record { queue = []; invoked = i })
        ≡ record { queue = []; invoked = i ++ expected m ∷ [] }
  unfolding dispatch_message
  direct_pending tls m i = delivered m tls (record { queue = []; invoked = i })

  served :
      (es : List Event) (c : Channel)
      → pending (run callback true es c) ≡ pending c ++ map expected (dispatched es)
  unfolding run
  served [] c = sym (append_nil (pending c))
  served (dispatch tls m ∷ es) c =
      served es (happen callback true (dispatch tls m) c)
      ∙ (ap (λ l. l ++ map expected (dispatched es)) (queued_pending tls m c)
          ∙ append_assoc (pending c) (expected m ∷ []) (map expected (dispatched es)))
  served (turn tls ∷ es) c =
      served es (happen callback true (turn tls) c)
      ∙ ap (λ l. l ++ map expected (dispatched es)) (turn_pending true tls c.queue c.invoked)

  unserved :
      (es : List Event) (i : List (Message × Option LastError))
      → run callback false es (record { queue = []; invoked = i })
        ≡ record { queue = []; invoked = i ++ map expected (dispatched es) }
  unfolding run receive
  unserved [] i = ap (λ l. record { queue = []; invoked = l }) (sym (append_nil i))
  unserved (dispatch tls m ∷ es) i =
      ap (λ c. run callback false es c) (direct_pending tls m i)
      ∙ (unserved es (i ++ expected m ∷ [])
          ∙ ap (λ l. record { queue = []; invoked = l })
              (append_assoc i (expected m ∷ []) (map expected (dispatched es))))
  unserved (turn tls ∷ es) i = unserved es i

  -- In every interleaving of dispatches and turns, whether the dispatcher could be started or not:
  -- the callbacks that were entered, followed by those that are queued, are the completions that
  -- were dispatched, each once, in their order, and each enters with its own error in the slot of its
  -- thread, whatever the slot held before and whatever earlier callbacks did or how they unwound.
  pub run_lem :
      (started : Bool) (es : List Event)
      → pending (run callback started es idle) ≡ map expected (dispatched es)
  run_lem true es = served es idle
  run_lem false es = ap pending (unserved es []) ∙ append_nil (map expected (dispatched es))

  drains :
      (tls : Option LastError) (q : List Message) (i : List (Message × Option LastError))
      → run callback true (replicate (length q) (turn tls)) (record { queue = q; invoked = i })
        ≡ record { queue = []; invoked = i ++ map expected q }
  unfolding run receive
  drains tls [] i = ap (λ l. record { queue = []; invoked = l }) (sym (append_nil i))
  drains tls (m ∷ ms) i =
      ap (λ c. run callback true (replicate (length ms) (turn tls)) c)
        (delivered m tls (record { queue = ms; invoked = i }))
      ∙ (drains tls ms (i ++ expected m ∷ [])
          ∙ ap (λ l. record { queue = []; invoked = l })
              (append_assoc i (expected m ∷ []) (map expected ms)))

  -- With a dispatcher, after any events as many turns as there are queued completions deliver all that was dispatched,
  -- in order, and leave the queue empty.
  run-drains :
      (es : List Event) (tls : Option LastError)
      → let c = run callback true es idle in
        run callback true (replicate (length c.queue) (turn tls)) c
        ≡ record { queue = []; invoked = map expected (dispatched es) }
  run-drains es tls =
      let c = run callback true es idle in
      drains tls c.queue c.invoked ∙ ap (λ l. record { queue = []; invoked = l }) (served es idle)
