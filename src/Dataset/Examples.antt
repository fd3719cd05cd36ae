-- ===== src/Dataset/Examples.antt =====
-- A dataset that is a list of rows, a mutation that appends a row, and one that panics halfway.
use lance_c.Prelude.{ℕ, text, none, true, List, [], ◌∷◌, ◌++◌, Result, ok, ◌≡◌}
use lance_c.Ffi.Outcome.{done, panicked, Payload, State}
use lance_c.Ffi.LastError.{LanceError, LastError}
use lance_c.Dataset.{Lock, Mutation, snapshot}
use lance_c.Dataset.Rollback.{mutate_all, mutate_all_lem}

abbrev append : Mutation (List ℕ) (Result LanceError ℕ)
append rows = (done (ok 0), rows ++ 9 ∷ [])

abbrev halfway : Mutation (List ℕ) (Result LanceError ℕ)
halfway rows = (panicked (Payload.str (text "boom")), [])

abbrev start : State LastError (Lock (List ℕ))
start = record { tls = none; world = record { inner = 1 ∷ 2 ∷ []; lock_poisoned = true } }

mutate_all_lem_example :
    (snapshot (mutate_all ((append, 1) ∷ (halfway, 1) ∷ (append, 1) ∷ []) start)).0
    ≡ done (1 ∷ 2 ∷ 9 ∷ 9 ∷ [])
mutate_all_lem_example = mutate_all_lem ((append, 1) ∷ (halfway, 1) ∷ (append, 1) ∷ []) start
