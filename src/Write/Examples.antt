-- ===== src/Write/Examples.antt =====
-- The calls that write, over a dataset that counts its changes.
use lance_c.Prelude.{ℕ, [], ◌∷◌, ◌+◌, none, some, true, false, ok, err, ◌≡◌, refl, text}
use lance_c.Ffi.Outcome.{done, panicked, Payload, State}
use lance_c.Ffi.LastError.{LastError}
use lance_c.Helpers.{utf8, null}
use lance_c.Scanner.Config.{invalid}
use lance_c.Write.{Source, Caller, entry, ◌>>=◌}
use lance_c.Write.Params.{create}
use lance_c.Write.Lance.{Lance, MergeStats}
use lance_c.Write.Create.{write_fragments}
use lance_c.Write.Transacts.{Transacts}
use lance_c.Merge.{default_params, resolve_params}
use lance_c.Write.Parse.{parse_key}
use lance_c.Write.Rows.{run_merge}
use lance_c.Write.Valid.{Acted}
use lance_c.Write.Valid.Calls.{change_body-Acted}
use lance_c.Write.Changes.{ChangeCall, reporting, merges, deletes, change_body, Asked, asked_merge}
use lance_c.Write.Transactions.{change_body-Transacts}
use lance_c.Write.Consumed.{adds, stream_body, consumed_source, stream_consumed}

abbrev counter : Lance
counter = record {
  Dataset = ℕ;
  Schema = ℕ;
  DataType = ℕ;
  Version = ℕ;
  same_fields = λ a b. true;
  version_from_str = λ s. some 2;
  default_write_params = record {
    mode = create;
    storage_options = none;
    auto_cleanup = none;
    max_rows_per_file = 1048576;
    max_rows_per_group = 1024;
    max_bytes_per_file = 96636764160;
    data_storage_version = none;
    enable_stable_row_ids = false;
  };
  default_compaction = record {
    target_rows_per_fragment = 1048576;
    max_rows_per_group = 1024;
    max_bytes_per_file = none;
    num_threads = none;
    batch_size = none;
  };
  write = λ s uri p. done (ok 1);
  write_uncommitted = λ s uri p. done (ok tt);
  add_columns = λ t b d. (panicked (Payload.str (text "boom")), d + 1);
  drop_columns = λ names d. (done (ok tt), d + 1);
  alter_columns = λ a d. (done (ok tt), d + 1);
  delete = λ p d. (done (ok 7), d + 1);
  update = λ p u d. done (err (invalid "no such column"));
  merge_insert = λ k r s d.
      done
        (ok (d + 1, record { num_inserted_rows = 1; num_updated_rows = 0; num_deleted_rows = 0 }));
  compact_files = λ o d. (
    done (
        ok (record {
          fragments_removed = 4;
          fragments_added = 1;
          files_removed = 4;
          files_added = 1;
        })),
    d + 1,
  );
  checkout_and_restore = λ v d. done (ok v);
}

abbrev live : Source
live = record { release = true; get_schema = true; get_next = true; released = 0 }

abbrev start : State LastError (Caller ℕ ℕ)
start = record {
  tls = none;
  world = record {
    dataset = some (record { inner = 3; lock_poisoned = false });
    source = some live;
    out = some 0;
  };
}

-- the schema does not convert, and the stream of the caller is left as it was
fragments_leave :
    (entry
      (write_fragments counter
        (utf8 "file:///tmp/f")
        (some (record { release = true; format = null; conversion = done none }))
        none
        (done (some 5)))
      start).1.world.source
    ≡ some live
unfolding write_fragments ◌>>=◌ lance_c.Ffi.Guard.ffi_try invalid
fragments_leave = refl

-- adding columns panics
stream_consumed_example :
    (entry (stream_body counter (adds {O = ℕ} (done (some 5)) 100)) start).1.world.source
    ≡ consumed_source (some live)
stream_consumed_example = stream_consumed counter (adds (done (some 5)) 100) start

-- deleting rows reports 7 of them
change_body-Transacts_example :
    Transacts
      (Asked counter ℕ (deletes (utf8 "a > 1")))
      start.world.dataset
      (some 0)
      (change_body counter (deletes (utf8 "a > 1")) start)
change_body-Transacts_example = change_body-Transacts counter (deletes (utf8 "a > 1")) start

-- a merge from a live stream inserts one row
abbrev merging : State LastError (Caller ℕ MergeStats)
merging = record {
  tls = none;
  world = record {
    dataset = some (record { inner = 3; lock_poisoned = false });
    source = some live;
    out = none;
  };
}

abbrev by_id : ChangeCall counter MergeStats
by_id = merges (some (utf8 "id" ∷ [])) 1 none (done (some 5))

change_body-Acted_example :
    Acted
      (reporting (run_merge counter ("id" ∷ []) default_params 5))
      (record { inner = 3; lock_poisoned = false })
      none
      (change_body counter by_id merging)
unfolding resolve_params parse_key lance_c.Helpers.required_string lance_c.Helpers.parse_c_string
change_body-Acted_example =
    change_body-Acted counter by_id (reporting (run_merge counter ("id" ∷ []) default_params 5))
      (record { inner = 3; lock_poisoned = false }) merging
      (asked_merge _ (utf8 "id" ∷ []) 1 none _ ("id" ∷ []) default_params 5 refl refl refl refl
        refl)
      refl (live, refl, refl)
