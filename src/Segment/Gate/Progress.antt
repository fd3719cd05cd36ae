-- ===== src/Segment/Gate/Progress.antt =====
-- The reports of `SendIndexBuildProgressCallback`, as the C callback receives them.
use lance_c.Prelude.{
  or_zero, ℕ, Text, text, has_nul, Option, none, some, Bool, false, [], ◌∷◌, Result, ok, ◌>>=◌, ◌≡◌,
  refl, ◌==◌, if◌then◌else◌, ok_or, arith,
}
use lance_c.Ffi.Outcome.{done}
use lance_c.Ffi.LastError.{LanceError, ErrorKind, c_string}

-- `str::replace('\0', "")`
unfoldable pub strip_nul : Text → Text
strip_nul [] = []
strip_nul (c ∷ t) = let rest = strip_nul t in if c == 0 then rest else c ∷ rest

abbrev pub interior_nul : LanceError
interior_nul = record {
  kind = ErrorKind.otherwise;
  display = done (text "index build progress stage/unit contained an interior NUL");
}

unfoldable pub progress_c_string : Text → Result LanceError Text
progress_c_string value =
    let cleaned = if has_nul value then strip_nul value else value in
    ok_or (c_string cleaned) interior_nul

pub data ProgressEvent : Type 0 where
  stage_start : ProgressEvent
  stage_progress : ProgressEvent
  stage_complete : ProgressEvent

-- what Lance reports
pub data Report : Type 0 where
  started : Text → Option ℕ → Text → Report
  progressed : Text → ℕ → Report
  completed : Text → Report

-- the arguments of the C callback
pub record Invocation : Type 0 where
  pub event : ProgressEvent
  pub stage : Text
  pub total : ℕ
  pub unit : Text
  pub completed : ℕ

-- A report with the answer of `enter`: the invocation that it makes, if any.
unfoldable pub report : Bool → Report → Result LanceError (Option Invocation)
unfolding progress_c_string
report admitted (started stage total unit) = do
  stage ← progress_c_string stage
  unit ← progress_c_string unit
  ok (
      if admitted
      then some (record {
        event = ProgressEvent.stage_start;
        stage = stage;
        total = or_zero total;
        unit = unit;
        completed = 0;
      })
      else none)
report admitted (progressed stage n) = do
  stage ← progress_c_string stage
  ok (
      if admitted
      then some (record {
        event = ProgressEvent.stage_progress;
        stage = stage;
        total = 0;
        unit = [];
        completed = n;
      })
      else none)
report admitted (completed stage) = do
  stage ← progress_c_string stage
  ok (
      if admitted
      then some (record {
        event = ProgressEvent.stage_complete;
        stage = stage;
        total = 0;
        unit = [];
        completed = 0;
      })
      else none)

has_nul-strip_nul : (t : Text) → has_nul (strip_nul t) ≡ false
unfolding strip_nul
has_nul-strip_nul [] = refl
has_nul-strip_nul (c ∷ t) = ground (arith, has_nul-strip_nul t)

strip_nul-of_clean : (t : Text) → has_nul t ≡ false → strip_nul t ≡ t
unfolding strip_nul
strip_nul-of_clean [] h = refl
strip_nul-of_clean (c ∷ t) h = ground (arith, strip_nul-of_clean t)

progress_c_string_lem : (t : Text) → progress_c_string t ≡ ok (strip_nul t)
unfolding progress_c_string
progress_c_string_lem t = ground (arith, has_nul-strip_nul t, strip_nul-of_clean t)

-- what a report says, its texts without NULs
abbrev pub said : Report → Invocation
said (started stage total unit) = record {
  event = ProgressEvent.stage_start;
  stage = strip_nul stage;
  total = or_zero total;
  unit = strip_nul unit;
  completed = 0;
}
said (progressed stage n) = record {
  event = ProgressEvent.stage_progress;
  stage = strip_nul stage;
  total = 0;
  unit = [];
  completed = n;
}
said (completed stage) = record {
  event = ProgressEvent.stage_complete;
  stage = strip_nul stage;
  total = 0;
  unit = [];
  completed = 0;
}

-- No report fails, whatever its texts hold: behind an open gate it makes the one invocation that it
-- says, with texts that a C string can hold, and behind a retired gate none.
pub report_lem :
    (admitted : Bool) (r : Report)
    → (report admitted r ≡ ok (if admitted then some (said r) else none))
      × (has_nul (said r).stage ≡ false)
      × (has_nul (said r).unit ≡ false)
unfolding report
report_lem b (started stage total unit) = (
  rw (progress_c_string_lem stage, progress_c_string_lem unit) refl,
  has_nul-strip_nul stage,
  has_nul-strip_nul unit,
)
report_lem b (progressed stage n) =
    (rw (progress_c_string_lem stage) refl, has_nul-strip_nul stage, refl)
report_lem b (completed stage) =
    (rw (progress_c_string_lem stage) refl, has_nul-strip_nul stage, refl)
