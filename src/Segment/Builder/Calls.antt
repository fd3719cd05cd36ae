-- ===== src/Segment/Builder/Calls.antt =====
-- The calls on a builder: what each returns, the builder afterwards, and the build that it requests.
use lance_c.Prelude.{
  ℕ, String, Option, none, some, Bool, true, false, List, [], ◌∷◌, Result, ok, err, ◌>>=◌, ◌>>◌,
  guard,
}
use lance_c.Ffi.LastError.{LanceError}
use lance_c.Scanner.Config.{invalid}
use lance_c.Index.{ScalarType}
use lance_c.Index.Params.{CoreParams, build_vector_params}
use lance_c.Segment.Models.{lance_of}
use lance_c.Segment.Train.{internal}
use lance_c.Segment.Builder.{Engine, SegmentKind, scalar, vector, Progress, SegmentBuilder}

pub data Job (x : Engine) : Type 0 where
  scalar_job : ScalarType → Option String → Job x
  vector_job : CoreParams (lance_of x.arrow.Values x.defaults) → Job x

-- `CreateIndexBuilder` of Lance, as it is when it is executed
pub record BuildRequest (x : Engine) : Type 0 where
  pub dataset : x.D
  pub column : String
  pub index_name : Option String
  pub fragment_ids : Option (List ℕ)
  pub index_uuid : Option (List ℕ)
  pub progress : Option x.Callback
  pub job : Job x

-- What a call leaves: its result, the builder, and the build requested of Lance if there was one.
pub record After (x : Engine) (A : Type 0) : Type 0 where
  pub result : Result LanceError A
  pub builder : Option (SegmentBuilder x)
  pub request : Option (BuildRequest x)

pub data Call (x : Engine) : Type 0 where
  execute : Bool → Bool → (BuildRequest x → Result LanceError x.Metadata) → Call x
  set_progress : Option x.Callback → Call x

-- the copy of the metadata for the caller, if `malloc` gives the memory
abbrev pub copied : (x : Engine) → Bool → Result LanceError x.Metadata → Result LanceError (List ℕ)
copied x allocated (err e) = err e
copied x allocated (ok metadata) = do
  guard allocated (internal "failed to allocate metadata bytes")
  ok (x.encode metadata)

module _ {x : Engine} where
  abbrev pub callback_of : Option (Progress x) → Option x.Callback
  callback_of none = none
  callback_of (some p) = some p.callback

  -- `ProgressRetireGuard`, dropped on every way out
  abbrev pub retire : Option (Progress x) → Option (Progress x)
  retire none = none
  retire (some p) = some (record p { retired = true })

  abbrev pub request_with : SegmentBuilder x → Job x → BuildRequest x
  request_with b job = record {
    dataset = b.dataset;
    column = b.column;
    index_name = b.index_name;
    fragment_ids = b.fragment_ids;
    index_uuid = b.index_uuid;
    progress = callback_of b.progress;
    job = job;
  }

  abbrev pub job_of : SegmentKind x.arrow.Values → Result LanceError (Job x)
  job_of (scalar scalar_type params_json) = ok (scalar_job scalar_type params_json)
  job_of (vector params centroids codebook) = do
    core ← build_vector_params (lance_of x.arrow.Values x.defaults) params centroids codebook
    ok (vector_job core)

  abbrev pub build :
      Bool
      → (BuildRequest x → Result LanceError x.Metadata)
      → SegmentBuilder x
      → Result LanceError (Job x)
      → After x (List ℕ)
  build allocated lance b (err e) = record {
    result = err e;
    builder = some (record b { progress = retire b.progress });
    request = none;
  }
  build allocated lance b (ok job) =
      let request = request_with b job in
      record {
        result = copied x allocated (lance request);
        builder = some (record b { progress = retire b.progress });
        request = some request;
      }

  -- The out-pointers are looked at only after the builder is marked.
  abbrev pub execute_on :
      Bool
      → Bool
      → Bool
      → (BuildRequest x → Result LanceError x.Metadata)
      → SegmentBuilder x
      → After x (List ℕ)
  execute_on true out_pointers allocated lance b = record {
    result = err (invalid "index segment builder is single-use and has already been executed");
    builder = some b;
    request = none;
  }
  execute_on false false allocated lance b = record {
    result = err (invalid "out_bytes and out_len must not be NULL");
    builder = some (record b { executed = true });
    request = none;
  }
  execute_on false true allocated lance b =
      build allocated lance (record b { executed = true }) (job_of b.kind)

  unfoldable pub execute_uncommitted :
      Bool
      → Bool
      → (BuildRequest x → Result LanceError x.Metadata)
      → Option (SegmentBuilder x)
      → After x (List ℕ)
  execute_uncommitted out_pointers allocated lance none = record {
    result = err (invalid "builder must not be NULL");
    builder = none;
    request = none;
  }
  execute_uncommitted out_pointers allocated lance (some b) =
      execute_on b.executed out_pointers allocated lance b

  -- A new callback gets a fresh gate.
  abbrev pub set_on : Bool → x.Callback → SegmentBuilder x → After x (Unit {0})
  set_on true c b = record {
    result = err (invalid "progress callback must be set before the builder is executed");
    builder = some b;
    request = none;
  }
  set_on false c b = record {
    result = ok tt;
    builder = some (record b { progress = some (record { callback = c; retired = false }) });
    request = none;
  }

  unfoldable pub set_progress_callback :
      Option x.Callback → Option (SegmentBuilder x) → After x (Unit {0})
  set_progress_callback callback none = record {
    result = err (invalid "builder must not be NULL");
    builder = none;
    request = none;
  }
  set_progress_callback none (some b) = record {
    result = err (invalid "progress callback must not be NULL");
    builder = some b;
    request = none;
  }
  set_progress_callback (some c) (some b) = set_on b.executed c b

  -- the builder and the request after a call
  abbrev pub called :
      Call x → Option (SegmentBuilder x) → Option (SegmentBuilder x) × Option (BuildRequest x)
  called (execute out_pointers allocated lance) b =
      let a = execute_uncommitted out_pointers allocated lance b in (a.builder, a.request)
  called (set_progress callback) b =
      let a = set_progress_callback callback b in (a.builder, a.request)

  abbrev pub listed : Option (BuildRequest x) → List (BuildRequest x) → List (BuildRequest x)
  listed none rs = rs
  listed (some r) rs = r ∷ rs

  -- the builds that a sequence of calls requests
  unfoldable pub requests : List (Call x) → Option (SegmentBuilder x) → List (BuildRequest x)
  requests [] b = []
  requests (c ∷ cs) b = let (b', r) = called c b in listed r (requests cs b')
