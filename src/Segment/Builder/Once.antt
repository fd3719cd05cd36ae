-- ===== src/Segment/Builder/Once.antt =====
-- A builder builds at most once, with the callback that was set last.
use lance_c.Prelude.{
  Option, none, some, Bool, true, false, List, [], ◌∷◌, Result, ok, err, ◌≡◌, refl,
}
use lance_c.Ffi.LastError.{LanceError}
use lance_c.Segment.Builder.{Engine, Progress, SegmentBuilder}
use lance_c.Segment.Builder.Calls.{
  Job, BuildRequest, callback_of, retire, job_of, build, execute_uncommitted, execute_on, set_on,
  set_progress_callback, Call, execute, set_progress, called, listed, requests,
}

module _ {x : Engine} where
  -- a call on a builder that was executed
  spent_call :
      (c : Call x) (b : SegmentBuilder x) → b.executed ≡ true → called c (some b) ≡ (some b, none)
  unfolding execute_uncommitted set_progress_callback
  spent_call (execute o a l) b h = rw h refl
  spent_call (set_progress none) b h = refl
  spent_call (set_progress (some c)) b h = rw h refl

  spent :
      (cs : List (Call x)) (b : SegmentBuilder x) → b.executed ≡ true → requests cs (some b) ≡ []
  unfolding requests
  spent [] b h = refl
  spent (c ∷ cs) b h = rw (spent_call c b h) (spent cs b h)

  -- the callback that is set when the builder is executed for the first time
  abbrev pub last_set : List (Call x) → Option x.Callback → Option x.Callback
  last_set [] before = before
  last_set (execute o a l ∷ cs) before = before
  last_set (set_progress none ∷ cs) before = last_set cs before
  last_set (set_progress (some c) ∷ cs) before = last_set cs (some c)

  -- a build of what the builder holds, with a callback
  pub record Builds (b : SegmentBuilder x) (callback : Option x.Callback) (r : BuildRequest x)
      : Type 0 where
    pub snapshot : r.dataset ≡ b.dataset
    pub column : r.column ≡ b.column
    pub index_name : r.index_name ≡ b.index_name
    pub fragment_ids : r.fragment_ids ≡ b.fragment_ids
    pub index_uuid : r.index_uuid ≡ b.index_uuid
    pub progress : r.progress ≡ callback
    pub job : job_of b.kind ≡ ok r.job

  -- nothing, or one build
  abbrev pub AtMostOnce : SegmentBuilder x → Option x.Callback → List (BuildRequest x) → Type 0
  AtMostOnce b callback [] = Unit
  AtMostOnce b callback (r ∷ []) = Builds b callback r
  AtMostOnce b callback (r ∷ s ∷ rs) = ⊥

  -- a builder that has become executed, with the build that it requested
  record Executed (b : SegmentBuilder x) (c : Option (SegmentBuilder x) × Option (BuildRequest x))
      : Type 0 where
    after : SegmentBuilder x
    same : c.0 ≡ some after
    executed : after.executed ≡ true
    request : AtMostOnce b (callback_of b.progress) (listed c.1 [])

  build-Executed :
      (b : SegmentBuilder x) (a : Bool) (l : BuildRequest x → Result LanceError x.Metadata)
      (j : Result LanceError (Job x))
      → job_of b.kind ≡ j
      → let d = build a l (record b { executed = true }) j in Executed b (d.builder, d.request)
  build-Executed b a l (err e) k = record {
    after = record b { progress = retire b.progress; executed = true };
    same = refl;
    executed = refl;
    request = tt;
  }
  build-Executed b a l (ok job) k = record {
    after = record b { progress = retire b.progress; executed = true };
    same = refl;
    executed = refl;
    request = record {
      snapshot = refl;
      column = refl;
      index_name = refl;
      fragment_ids = refl;
      index_uuid = refl;
      progress = refl;
      job = k;
    };
  }

  execute-Executed :
      (b : SegmentBuilder x) (e o a : Bool) (l : BuildRequest x → Result LanceError x.Metadata)
      → e ≡ false
      → let d = execute_on e o a l b in Executed b (d.builder, d.request)
  execute-Executed b true o a l h = cc
  execute-Executed b false false a l h = record {
    after = record b { executed = true };
    same = refl;
    executed = refl;
    request = tt;
  }
  execute-Executed b false true a l h = build-Executed b a l (job_of b.kind) refl

  once_spent :
      (b : SegmentBuilder x) (cs : List (Call x))
      (c : Option (SegmentBuilder x) × Option (BuildRequest x))
      → Executed b c
      → AtMostOnce b (callback_of b.progress) (listed c.1 (requests cs c.0))
  once_spent b cs c h = rw (h.same, spent cs h.after h.executed) h.request

  relabelled :
      (b : SegmentBuilder x) (p : Option (Progress x)) (c : Option x.Callback)
      (rs : List (BuildRequest x))
      → AtMostOnce (record b { progress = p }) c rs
      → AtMostOnce b c rs
  relabelled b p c [] h = tt
  relabelled b p c (r ∷ []) h = record {
    snapshot = h.snapshot;
    column = h.column;
    index_name = h.index_name;
    fragment_ids = h.fragment_ids;
    index_uuid = h.index_uuid;
    progress = h.progress;
    job = h.job;
  }
  relabelled b p c (r ∷ s ∷ rs) h = h

  -- the calls of a builder that is not executed yet
  set_call :
      (b : SegmentBuilder x) (c : x.Callback) (e : Bool)
      → e ≡ false
      → (set_on e c b).builder
        ≡ some (record b { progress = some (record { callback = c; retired = false }) })
  set_call b c true h = cc
  set_call b c false h = refl

  no_request : (e : Bool) (c : x.Callback) (b : SegmentBuilder x) → (set_on e c b).request ≡ none
  no_request true c b = refl
  no_request false c b = refl

  -- However a builder is called, it requests at most one build of Lance, of the snapshot, the column
  -- and the other arguments that it was made with, and with the callback that was set last before
  -- the first execution.
  pub build-AtMostOnce :
      (cs : List (Call x)) (b : SegmentBuilder x)
      → b.executed ≡ false
      → AtMostOnce b (last_set cs (callback_of b.progress)) (requests cs (some b))
  unfolding requests execute_uncommitted set_progress_callback
  build-AtMostOnce [] b h = tt
  build-AtMostOnce (execute o a l ∷ cs) b h =
      once_spent b cs (called (execute o a l) (some b)) (execute-Executed b b.executed o a l h)
  build-AtMostOnce (set_progress none ∷ cs) b h = build-AtMostOnce cs b h
  build-AtMostOnce (set_progress (some c) ∷ cs) b h =
      let p = some (record { callback = c; retired = false }) in
      rw (no_request b.executed c b, set_call b c b.executed h)
        (relabelled b p (last_set cs (some c)) _
          (build-AtMostOnce cs (record b { progress = p }) h))
