-- ===== src/Dataset/Rollback.antt =====
-- A mutation that panics leaves the dataset of the handle as it was.
use lance_c.Prelude.{List, [], ◌∷◌, Result, ◌≡◌, refl, ap, ◌∙◌}
use lance_c.Ffi.Outcome.{Caught, done, panicked, Act, State}
use lance_c.Ffi.LastError.{LanceError, LastError}
use lance_c.Ffi.Guard.{ffi_try}
use lance_c.Ffi.Report.{call_report, ffi_try_lem}
use lance_c.Dataset.{Lock, Mutation, with_mut, snapshot, swapped}

module _ {D A : Type 0} where
  -- a guarded entry point that mutates the dataset, such as `lance_dataset_delete`
  abbrev pub mutate : Mutation D (Result LanceError A) → A → Act LastError (Lock D) A
  mutate f errval = ffi_try (with_mut f) errval

  -- what the mutation leaves in the handle: its working copy if it returned, with an error or
  -- without, and the old dataset if it panicked
  abbrev pub committed : Caught (Result LanceError A) × D → D → D
  committed (done r, working) old = working
  committed (panicked p, working) old = old

  -- what the guard makes of the swap
  after_swap :
      (r : Caught (Result LanceError A) × D) (errval : A) (s : State LastError (Lock D))
      → let (q, t) = swapped r s in
        (call_report q errval ≡ call_report r.0 errval)
        × (t.world.inner ≡ committed r s.world.inner)
  after_swap (done r, working) errval s = (refl, refl)
  after_swap (panicked p, working) errval s = (refl, refl)

  -- the handle after each of the mutations in turn
  abbrev pub mutate_all :
      List (Mutation D (Result LanceError A) × A)
      → State LastError (Lock D)
      → State LastError (Lock D)
  mutate_all [] s = s
  mutate_all ((f, errval) ∷ fs) s = mutate_all fs (mutate f errval s).1

  -- the datasets that only the mutations that return make of the first
  abbrev pub replay : List (Mutation D (Result LanceError A) × A) → D → D
  replay [] d = d
  replay ((f, errval) ∷ fs) d = replay fs (committed (f d) d)

  -- A guarded mutation returns what the report says of the mutation's outcome, also on a lock that
  -- an earlier panic poisoned; afterwards the handle holds the mutation's working copy if it
  -- returned, be it with an error, and the old dataset if it panicked, and the slot its report.
  mutate_lem :
      (f : Mutation D (Result LanceError A)) (errval : A) (s : State LastError (Lock D))
      → let old = s.world.inner in
        let r = f old in
        let (ret, t) = mutate f errval s in
        (ret ≡ done (call_report r.0 errval).0)
        × (t.tls ≡ (call_report r.0 errval).1)
        × (t.world.inner ≡ committed r old)
  unfolding with_mut
  mutate_lem f errval s =
      let e = ffi_try_lem (with_mut f) errval s in
      let (report, kept) = after_swap (f s.world.inner) errval s in
      (
        ap (λ p. p.0) e ∙ ap (λ c. done c.0) report,
        ap (λ p. p.1.tls) e ∙ ap (λ c. c.1) report,
        ap (λ p. p.1.world.inner) e ∙ kept,
      )

  -- After any guarded mutations in turn, the handle holds what the mutations that did not panic made
  -- of its first dataset: those that panicked left no trace, and did not disturb the later ones.
  pub mutate_all_lem :
      (fs : List (Mutation D (Result LanceError A) × A)) (s : State LastError (Lock D))
      → (snapshot (mutate_all fs s)).0 ≡ done (replay fs s.world.inner)
  unfolding snapshot
  mutate_all_lem [] s = refl
  mutate_all_lem ((f, errval) ∷ fs) s =
      let (_, _, kept) = mutate_lem f errval s in
      mutate_all_lem fs (mutate f errval s).1 ∙ ap (λ d. done (replay fs d)) kept
