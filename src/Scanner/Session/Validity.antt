-- ===== src/Scanner/Session/Validity.antt =====
-- What holds of a scanner's configuration in every session, however its calls end.
use lance_c.Prelude.{Option, none, some, Bool, true, List, Result, ◌≡◌, refl, sym, ap, ◌∙◌}
use lance_c.Ffi.Outcome.{Caught}
use lance_c.Ffi.LastError.{LanceError, LastError}
use lance_c.Scanner.Config.{External, Scanner, new}
use lance_c.Scanner.Invariant.{IsValid, apply-IsValid, new-IsValid}
use lance_c.Scanner.Frozen.{guarded, Guarded, apply-guarded}
use lance_c.Scanner.Handle.{Handle}
use lance_c.Scanner.Iterate.{Engine}
use lance_c.Scanner.Session.{Request, session}
use lance_c.Scanner.Session.Keeps.{On}
use lance_c.Scanner.Session.Parts.{IsStable}
use lance_c.Scanner.Session.Entries.{session-On}

module _ {x : External} where
  flags-IsValid :
      (c : Scanner x) (poisoned started' : Bool)
      → IsValid c
      → IsValid (record c { poisoned = poisoned; scan_started = started' })
  flags-IsValid c poisoned started' h = record {
    batch_no_limit = h.batch_no_limit;
    nearest_no_fts = h.nearest_no_fts;
    one_fts = h.one_fts;
    bytes_not_strict = h.bytes_not_strict;
    range = h.range;
    fits = h.fits;
  }

  IsValid-IsStable : IsStable {x = x} IsValid
  IsValid-IsStable = record {
    starts = λ c h. flags-IsValid c c.poisoned true h;
    poisons = λ c h. flags-IsValid c true c.scan_started h;
    applies = apply-IsValid;
  }

  -- the configuration of a scan that has started
  abbrev Frozen : Guarded x → Scanner x → Type 0
  Frozen g c = (c.scan_started ≡ true) × (guarded c ≡ g)

  Frozen-IsStable : (g : Guarded x) → IsStable {x = x} (Frozen g)
  Frozen-IsStable g = record {
    starts = λ c h. (refl, ap (λ b. record (guarded c) { started = b }) (sym h.0) ∙ h.1);
    poisons = λ c h. h;
    applies = λ r c t h e.
        let same : guarded t ≡ guarded c = apply-guarded r c t h.0 e in
        (ap (λ k. k.started) same ∙ h.0, same ∙ h.1);
  }

abbrev pub new_handle : {x : External} {S : Type 0} → x.Dataset → Handle x S
new_handle d = record { config = new d; stream = none }

module _ {x : External} {S B : Type 0} where
  -- In every session with a new scanner, whatever the calls, their arguments and out pointers, and
  -- whatever errors and panics the stream raises, the configuration of the handle is valid while the
  -- handle is open: its query fits its limits and stands alone, and its probe range is ordered.
  pub session-IsValid :
      (engine : Engine x S B) (export : Scanner x → Caught (Result LanceError B))
      (drop_handle : Handle x S → Caught (Unit {0})) (rs : List (Request x × Option (Option B)))
      (d : x.Dataset) (t : Option LastError) (out : Option (Option B))
      → On IsValid
          (session engine export drop_handle rs (record {
            tls = t;
            world = record { scanner = some (new_handle d); out = out };
          })).world.scanner
  session-IsValid engine export drop_handle rs d t out =
      session-On IsValid-IsStable engine export drop_handle rs _ (new-IsValid d)

  -- Once the scan of a handle has started, whatever calls follow, while the handle is open every
  -- guarded field of its configuration is as it was.
  pub session-guarded :
      (engine : Engine x S B) (export : Scanner x → Caught (Result LanceError B))
      (drop_handle : Handle x S → Caught (Unit {0})) (rs : List (Request x × Option (Option B)))
      (h : Handle x S) (t : Option LastError) (out : Option (Option B))
      → h.config.scan_started ≡ true
      → On
          (λ c. guarded c ≡ guarded h.config)
          (session engine export drop_handle rs
            (record { tls = t; world = record { scanner = some h; out = out } })).world.scanner
  session-guarded engine export drop_handle rs h t out e =
      second _
        (session-On (Frozen-IsStable (guarded h.config)) engine export drop_handle rs _ (e, refl))
    where
      second :
          (o : Option (Handle x S))
          → On (Frozen (guarded h.config)) o
          → On (λ c. guarded c ≡ guarded h.config) o
      second none k = k
      second (some c) k = k.1
