-- ===== src/Scanner/Examples.antt =====
-- The scanner's theorems over a small stand-in for the libraries it calls.
use lance_c.Prelude.{
  zero, err, suc, Option, Result, ℤ, map, ◌++◌, if◌then◌else◌, ℕ, pos, String, text, none, some,
  true, false, List, [], ◌∷◌, ok, ◌≡◌, refl,
}
use lance_c.Ffi.Outcome.{Payload, Caught, done, panicked, State, Act}
use lance_c.Ffi.LastError.{ErrorKind, LanceError, LastError}
use lance_c.Scanner.Config.{NearestMode, Scanner, new}
use lance_c.Scanner.Small.{small}
use lance_c.Scanner.Calls
use lance_c.Scanner.Calls.{Setting}
use lance_c.Scanner.Invariant.{IsValid}
use lance_c.Scanner.Plan.{BuilderCall, first_calls}
use lance_c.Scanner.Build.{Builder, PreparedScanner, build_scanner}
use lance_c.Scanner.Build.Scope.{first_calls_lem}
use lance_c.Scanner.Build.Quiet.{scope, searched, segmented, restricted, masked}
use lance_c.Scanner.Build.Checked.{IsCompatible, build_scanner-IsCompatible}
use lance_c.Scanner.Frozen.{guarded}
use lance_c.Scanner.Handle.{Handle, Memory, minus_one, is_poisoned, scanner_call}
use lance_c.Scanner.Handle.Report.{poison_report, outcome, scanner_call_lem}
use lance_c.Scanner.Iterate.{Engine, Poll}
use lance_c.Scanner.Iterate.View
use lance_c.Scanner.Iterate.View.{memory, view, calls_lem}
use lance_c.Scanner.Session.{Request, session}
use lance_c.Scanner.Session.Keeps.{On}
use lance_c.Scanner.Session.Validity.{new_handle, session-IsValid, session-guarded}

-- a vector query, which then refuses the text query, and a limit
abbrev calls : List (Setting small)
calls =
    Calls.nprobes 8
    ∷ Calls.nearest (some (ok "v")) (some (1 ∷ 2 ∷ [])) 2 (pos 0) 10
    ∷ Calls.full_text_search (some (ok "cat")) (ok none) 0
    ∷ Calls.limit (pos 5)
    ∷ []

-- A stream that counts down its batches, fails at one and panics at zero; opening it succeeds.
abbrev down : ℕ → Caught (Option (Result LanceError ℕ)) × ℕ
down zero = (panicked (Payload.str (text "boom")), zero)
down (suc zero) =
    (done (some (err (record { kind = ErrorKind.io; display = done (text "disk") }))), zero)
down (suc (suc n)) = (done (some (ok n)), suc n)

abbrev counting : Engine small ℕ ℕ
counting = record {
  open_stream = λ c. done (ok 3);
  advance = down;
  poll = λ n. (done Poll.pending, n);
}

abbrev no_export : Scanner small → Caught (Result LanceError ℕ)
no_export c = panicked Payload.other

abbrev drop_handle : Handle small ℕ → Caught (Unit {0})
drop_handle h = panicked Payload.other

-- the calls above, a poll, five blocking calls with and without an out pointer, and the close
abbrev requests : List (Request small × Option (Option ℕ))
requests =
    map (λ c. (Request.configure c, none)) calls
    ++ (Request.poll_next true, some none)
      ∷ (Request.next, some (some 9))
      ∷ (Request.next, none)
      ∷ (Request.configure (Calls.batch_readahead 9), none)
      ∷ (Request.to_arrow_stream, some none)
      ∷ (Request.next, some none)
      ∷ []

abbrev start : State LastError (Memory small ℕ ℕ)
start = record { tls = none; world = record { scanner = some (new_handle 0); out = none } }

session-IsValid_example :
    On IsValid (session counting no_export drop_handle requests start).world.scanner
session-IsValid_example = session-IsValid counting no_export drop_handle requests 0 none none

abbrev running : Handle small ℕ
running = record {
  config = record (new {x = small} 0) { scan_started = true; batch_readahead = some 4 };
  stream = some 3;
}

session-guarded_example :
    On
      (λ c. guarded c ≡ guarded running.config)
      (session counting no_export drop_handle requests (record {
        tls = none;
        world = record { scanner = some running; out = none };
      })).world.scanner
session-guarded_example =
    session-guarded counting no_export drop_handle requests running none none refl

calls_lem_example :
    (View.calls counting 4 (memory counting none (new_handle 0) (some 9))).0
    ≡ done (view counting 4 (new_handle 0))
calls_lem_example = calls_lem counting 4 none (new_handle 0) (some 9)

-- a body that panics poisons the handle
abbrev crash : Act LastError (Memory small ℕ ℕ) (Result LanceError ℤ)
crash s = (panicked (Payload.str (text "boom")), s)

scanner_call_lem_example : scanner_call crash start ≡ (
    if is_poisoned start.world.scanner
    then (done minus_one, record start { tls = some poison_report })
    else outcome (panicked (Payload.str (text "boom"))) start)
scanner_call_lem_example = scanner_call_lem crash start

-- a builder that records its calls
abbrev recorder : Builder small (List (BuilderCall small)) String
recorder = record {
  exec = λ c p. ok (p ++ c ∷ []);
  fragments = λ d. 0 ∷ 1 ∷ 2 ∷ [];
  expr_filter = λ p. ok none;
  parse = λ sql p. ok sql;
  conjoin = λ a b. a;
  filter_expr = λ f p. p;
  context_query = λ c. "cat";
  validate_identity = λ c d. ok tt;
  select_segments = λ c us. ok [];
}

-- a scan of two fragments through one index segment
abbrev segment_scan : Scanner small
segment_scan = record (new {x = small} 0) {
  fragment_ids = some (1 ∷ 2 ∷ []);
  scalar_index_segment = some 77;
  scan_in_order = some true;
}

abbrev prepared : PreparedScanner small (List (BuilderCall small))
prepared = record {
  scanner = BuilderCall.scan_in_order true ∷ BuilderCall.with_fragments (1 ∷ 2 ∷ []) ∷ [];
  distributed_fts = none;
  multi_vector_window = none;
  scalar_segment = some (record {
    segment = 77;
    auto_selection = false;
    fragment_ids = 1 ∷ 2 ∷ [];
    use_scalar_index = true;
  });
}

built : build_scanner recorder segment_scan [] ≡ ok prepared
unfolding build_scanner new
built = refl

build_scanner-IsCompatible_example : IsCompatible segment_scan
build_scanner-IsCompatible_example =
    build_scanner-IsCompatible recorder segment_scan [] prepared built

-- a vector query over two fragments, one row and one index segment that does not prefilter
abbrev searching : Scanner small
searching = record (new {x = small} 0) {
  nearest = some (record {
    mode = NearestMode.single;
    column = "v";
    query = 1 ∷ 2 ∷ [];
    k = 10;
    lower_bound = none;
    upper_bound = none;
  });
  row_addr_allowlist = some (7 ∷ []);
  index_segments = some (4 ∷ []);
  fragment_ids = some (2 ∷ 5 ∷ []);
}

first_calls_lem_example :
    scope (first_calls (0 ∷ 1 ∷ 2 ∷ []) searching)
    ≡ masked (some (7 ∷ [])) none ∷ searched "v" 10 ∷ segmented (4 ∷ []) ∷ restricted (2 ∷ []) ∷ []
unfolding new
first_calls_lem_example = first_calls_lem (0 ∷ 1 ∷ 2 ∷ []) searching
