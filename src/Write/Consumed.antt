-- ===== src/Write/Consumed.antt =====
-- What becomes of the stream that a call is handed (src/writer.rs, src/merge_insert.rs,
-- src/add_columns.rs).
use lance_c.Prelude.{
  ℕ, ℤ, negsuc, String, Option, none, some, Bool, true, false, List, Result, ◌==◌, ◌≡◌, refl, ap,
  ◌∙◌,
}
use lance_c.Ffi.Outcome.{Caught, done, panicked, State}
use lance_c.Ffi.LastError.{LanceError, LastError}
use lance_c.Ffi.Report.{ffi_try_lem}
use lance_c.Helpers.{CString}
use lance_c.Dataset.{Lock}
use lance_c.Merge.{MergeInsertParams}
use lance_c.Write.{Source, Caller, Call, given, ◌>>=◌, refuse_if, require, dataset_pointer, entry}
use lance_c.Write.Keeps.{
  Keeps, bind-Keeps, given-Keeps, attempt-Keeps, pointer-Keeps, write_out-Keeps, refuse_if-Keeps,
  require-Keeps, mutated-Keeps, consumed, with_reader_consumes,
}
use lance_c.Write.Lance.{CSchema, Lance, MergeStats, NewColumnTransform}
use lance_c.Write.Params.{CWriteParams}
use lance_c.Write.Columns.{add_columns_stream, add_to, add_source, add_reader}
use lance_c.Write.Rows.{run_merge, merge_insert, merge_reader}
use lance_c.Write.Create.{write_dataset, write_reader, expected_schema}

-- the entry points that promise to consume a stream on every return
pub data StreamCall (l : Lance) : Type 0 → Type 1 where
  writes :
      CString
      → Option (CSchema l.Schema)
      → ℤ
      → Option CWriteParams
      → Option (List CString)
      → Caught (Option l.Schema)
      → StreamCall l (Lock l.Dataset)
  merges :
      Option (List CString)
      → ℕ
      → Option MergeInsertParams
      → Caught (Option l.Schema)
      → StreamCall l MergeStats
  adds : {O : Type 0} → Caught (Option l.Schema) → ℕ → StreamCall l O

abbrev pub consumed_source : Option Source → Option Source
consumed_source none = none
consumed_source (some src) = some (consumed src)

module _ (l : Lance) where
  abbrev pub stream_body : {O : Type 0} → StreamCall l O → Call l.Dataset O ℤ
  stream_body (writes uri schema mode params storage import) =
      write_dataset l uri schema mode params storage import
  stream_body (merges on_columns n params import) = merge_insert l on_columns n params import
  stream_body (adds import batch_size) = add_columns_stream l import batch_size

  module _ {O : Type 0} where
    abbrev Quiet : {A : Type 0} → Call l.Dataset O A → Type 0
    Quiet = Keeps (λ c. c.source)

    needs : {A : Type 0} (o : Option A) (message : String) → Quiet (require o message)
    needs o message = require-Keeps (λ c. c.source) o message

    refuses : (b : Bool) (message : String) → Quiet (refuse_if b message)
    refuses b message = refuse_if-Keeps (λ c. c.source) b message

    gives : {A : Type 0} (r : Result LanceError A) → Quiet (given r)
    gives r = given-Keeps (λ c. c.source) r

    pointer : Quiet dataset_pointer
    pointer = pointer-Keeps (λ c. c.source)

    step :
        {A B : Type 0} {m : Call l.Dataset O A} {f : A → Call l.Dataset O B}
        → Quiet m
        → ((a : A) → Quiet (f a))
        → Quiet (m >>= f)
    step h k = bind-Keeps (λ c. c.source) h k

    add_to-Quiet :
        (lock : Lock l.Dataset) (t : NewColumnTransform l.Schema) (batch : Option ℕ)
        → Quiet (add_to l lock t batch)
    add_to-Quiet lock t batch = step (mutated-Keeps lock _) λ _. gives _

    expected_schema-Quiet : (c : Caught (Option l.Schema)) → Quiet (expected_schema l c)
    expected_schema-Quiet (done none) = gives _
    expected_schema-Quiet (done (some schema)) = gives _
    expected_schema-Quiet (panicked p) = attempt-Keeps (λ c. c.source) _

  -- from the stream pointer on
  at_stream :
      {O A : Type 0} (body : Source → Call l.Dataset O A) (message : String)
      → ((src : Source) (s : State LastError (Caller l.Dataset O))
          → s.world.source ≡ some src
          → (body src s).1.world.source ≡ some (consumed src))
      → (source : Option Source) (s : State LastError (Caller l.Dataset O))
      → s.world.source ≡ source
      → ((require source message >>= body) s).1.world.source ≡ consumed_source source
  unfolding ◌>>=◌
  at_stream body message h none s e = e
  at_stream body message h (some src) s e = h src s e

  merge_reader-Quiet :
      (on_columns : Option (List CString)) (n : ℕ) (params : Option MergeInsertParams)
      (schema : l.Schema)
      → Quiet (merge_reader l on_columns n params schema)
  unfolding merge_reader
  merge_reader-Quiet on_columns n params schema = step pointer λ dataset.
      step (needs dataset _) λ lock. step (refuses (n == 0) _) λ _.
        step (needs on_columns _) λ entries. step (gives _) λ keys. step (gives _) λ resolved.
          step (mutated-Keeps lock (run_merge l keys resolved schema))
            λ stats. step (write_out-Keeps stats) λ _. gives _

  write_reader-Quiet :
      (uri : CString) (schema : Option (CSchema l.Schema)) (mode : ℤ) (params : Option CWriteParams)
      (storage : Option (List CString)) (stream_schema : l.Schema)
      → Quiet (write_reader l uri schema mode params storage stream_schema)
  unfolding write_reader
  write_reader-Quiet uri schema mode params storage stream_schema = step (refuses _ _) λ _.
      step (needs schema _) λ c. step (gives _) λ m. step (gives _) λ u.
        step (expected_schema-Quiet c.conversion) λ expected. step (gives _) λ options.
          step (refuses _ _) λ _. step (gives _) λ target.
            step (attempt-Keeps (λ c. c.source) _) λ dataset. step (write_out-Keeps _) λ _. gives _

  add_reader-Quiet :
      {O : Type 0} (batch_size : ℕ) (schema : l.Schema)
      → Quiet (add_reader l {O = O} batch_size schema)
  unfolding add_reader
  add_reader-Quiet batch_size schema =
      step pointer
        λ dataset. step (needs dataset _) λ lock. step (gives _) λ batch. add_to-Quiet lock _ batch

  add_source_consumes :
      {O : Type 0} (import : Caught (Option l.Schema)) (batch_size : ℕ)
      (release get_schema get_next : Bool) (n : ℕ) (s : State LastError (Caller l.Dataset O))
      → let src : Source = record {
        release = release;
        get_schema = get_schema;
        get_next = get_next;
        released = n;
      } in
        s.world.source ≡ some src
        → (add_source l import batch_size src s).1.world.source ≡ some (consumed src)
  add_source_consumes import batch_size true true true n s e =
      with_reader_consumes _ import _ (add_reader-Quiet batch_size) s
  add_source_consumes import batch_size true true false n s e = refl
  add_source_consumes import batch_size true false next n s e = refl
  add_source_consumes import batch_size false schema next n s e = e

  merged :
      (on_columns : Option (List CString)) (n : ℕ) (params : Option MergeInsertParams)
      (import : Caught (Option l.Schema)) (s : State LastError (Caller l.Dataset MergeStats))
      → (merge_insert l on_columns n params import s).1.world.source
        ≡ consumed_source s.world.source
  unfolding merge_insert ◌>>=◌
  merged on_columns n params import s =
      at_stream _ "source stream must not be NULL"
        (λ src s e. with_reader_consumes src import _ (merge_reader-Quiet on_columns n params) s)
        s.world.source s refl

  wrote :
      (uri : CString) (schema : Option (CSchema l.Schema)) (mode : ℤ) (params : Option CWriteParams)
      (storage : Option (List CString)) (import : Caught (Option l.Schema))
      (s : State LastError (Caller l.Dataset (Lock l.Dataset)))
      → (write_dataset l uri schema mode params storage import s).1.world.source
        ≡ consumed_source s.world.source
  unfolding write_dataset ◌>>=◌
  wrote uri schema mode params storage import s =
      at_stream _ "stream must not be NULL"
        (λ src s e.
          with_reader_consumes src import _ (write_reader-Quiet uri schema mode params storage) s)
        s.world.source s refl

  added :
      {O : Type 0} (import : Caught (Option l.Schema)) (batch_size : ℕ)
      (s : State LastError (Caller l.Dataset O))
      → (add_columns_stream l import batch_size s).1.world.source ≡ consumed_source s.world.source
  unfolding add_columns_stream ◌>>=◌
  added import batch_size s =
      at_stream (add_source l import batch_size) "stream must not be NULL"
        (λ src.
          add_source_consumes import batch_size src.release src.get_schema src.get_next
            src.released)
        s.world.source s refl

  -- A call that is handed a stream, whatever its other arguments are and however it ends, leaves the
  -- caller's struct without its `release`, and has called the producer's `release` once if it was
  -- there; a pointer that is NULL stays so.
  pub stream_consumed :
      {O : Type 0} (c : StreamCall l O) (s : State LastError (Caller l.Dataset O))
      → (entry (stream_body c) s).1.world.source ≡ consumed_source s.world.source
  stream_consumed c s =
      ap (λ p. p.1.world.source) (ffi_try_lem (stream_body c) (negsuc 0) s) ∙ by_call c s
    where
      by_call :
          {O : Type 0} (c : StreamCall l O) (s : State LastError (Caller l.Dataset O))
          → (stream_body c s).1.world.source ≡ consumed_source s.world.source
      by_call (writes uri schema mode params storage import) s =
          wrote uri schema mode params storage import s
      by_call (merges on_columns n params import) s = merged on_columns n params import s
      by_call (adds import batch_size) s = added import batch_size s
