-- ===== src/Lib.antt =====
-- A model of lance-c, the C interface to Lance datasets, and what holds of it.
--
-- What C calls is a guarded function over a handle: src/error.rs catches every error and panic and
-- leaves a code and a message in a slot of the thread. The largest handle is the scanner
-- (src/scanner.rs). A client configures it call by call, and then runs it: as a C stream, which
-- src/stream_guard.rs wraps so that no panic unwinds into C, or by polling, with wakers that call
-- back into C until the scanner is closed. src/scalar_segment.rs restricts an index expression to
-- the one index segment that a scan may read.
--
-- Prelude holds shared names: Boolean tests on numbers, results with the early return of `?`, lists,
-- and texts as lists of code points. Ffi models src/error.rs: Ffi.Outcome is the state that a call
-- reads and writes (the thread's slot and all else) with panics as values, Ffi.LastError the codes
-- and the slot, Ffi.Guard `ffi_guard_with` and the `ffi_try!` shapes, and Ffi.Report describes what C
-- finds. Stream models `GuardedReader` (Stream.Reader) and
-- `GuardedRecordBatchReader` (Stream.Batches) of src/stream_guard.rs. Waker models `CWakerContext` and
-- `PollWakerRegistry` of src/scanner.rs as steps of several threads. Expression models
-- `scoped_expression` and `SegmentIndexLoader` of src/scalar_segment.rs. Scanner models the
-- configuration of `LanceScanner`: Scanner.Config its fields, Scanner.Setters, Scanner.Queries and
-- Scanner.Nearest the calls (with Scanner.Elements for the values), Scanner.Limits and Scanner.Nprobes
-- the checks they share, and Scanner.Calls all of them as one type.
-- Scanner.Handle wraps them in the poison check and the guard, Scanner.Iterate models
-- `lance_scanner_next`, `lance_scanner_poll_next` and `lance_scanner_to_arrow_stream` over a stream
-- that is a parameter, and Scanner.Session any calls on one handle in any order. Scanner.Plan and
-- Scanner.Build model `build_scanner`, over Lance's scanner as a parameter. Selection models the page
-- estimate of src/scalar_index_selection.rs, Selection.Probe the cost of an index within a budget, and
-- Selection.Choose the choice among the indices. Dataset models the lock of src/dataset.rs, and
-- Dispatcher the completion of asynchronous calls of src/async_dispatcher.rs, over which Scanner.Async
-- models `lance_scanner_scan_async` and its tasks.
--
-- Helpers models src/helpers.rs. Index models src/index.rs: its codes, Index.Params the parameters of
-- a vector index, Index.Lifecycle the requests on indices. Segment models src/index_segment.rs, where
-- one process builds a segment of an index and another commits it: Segment.Gate the gate of the
-- progress callback as atomic steps of several workers, Segment.Schema the walk of a foreign Arrow
-- schema, Segment.Options and Segment.Model the options and the arrays of a builder,
-- Segment.Provenance and Segment.Models what the models must fit, Segment.Builder the builder and its
-- calls, and Segment.Metadata the metadata of a built segment. Segment.Train models the trainers of
-- src/index_model.rs, whose models a builder takes.
--
-- Merge models the parameters of a merge of src/merge_insert.rs, with their codes and expressions, and
-- Write the calls that write. Write itself has what they share: the caller's memory with the dataset,
-- the stream and the result slot, `?` as the bind of a monad, and a reader over the caller's stream,
-- which is released where the Rust code drops it. Write.Lance is what Lance and Arrow do, a parameter;
-- Write.Params has the tunable parameters of src/writer.rs, src/compact.rs and src/add_columns.rs, and
-- Write.Parse the reading of the caller's arrays. Write.Create models src/writer.rs and
-- src/fragment_writer.rs, Write.Columns src/add_columns.rs, src/drop_columns.rs and
-- src/alter_columns.rs, and Write.Rows src/delete.rs, src/update.rs, src/merge_insert.rs,
-- src/compact.rs and src/restore.rs. Write.Consumed is about the stream; Write.Transacts,
-- Write.Changes, Write.Transactions and Write.Valid are about the dataset and the result slot.
--
-- A pointer that may be NULL is an option; a string argument is what parsing it returned. UUIDs are
-- numbers. `usize` is 64 bits wide, and an overflow test is written out. Of a formatted message only
-- the fixed words are kept. A lock-protected section is one step. Recursion is on data, except that
-- the walk of a schema has fuel 66, which is enough since it refuses a depth above 64, and that
-- numbers are printed with fuel 20, the digits that 64 bits may need. Lance, Arrow, DataFusion and
-- Tokio are parameters, with no hypotheses but those that a theorem names.
--
-- Of a reader that Lance is given, only the release at the end of the call is modelled, not where in
-- Lance it ends; an array pointer with its length is a list.
--
-- Not modelled: the other accessors of src/dataset.rs, the JSON listing of src/index.rs, full-text contexts (src/fts_query.rs) and multi-vector plans (src/multivector.rs),
-- the accessors of versions, blobs, sessions and statistics, which pass Lance's values on, and the
-- planning and execution of scans, which Lance and DataFusion do. Logging is left out, and so are the
-- counters that `choose` records.
pub mod Dataset
pub mod Dispatcher
pub mod Expression
pub mod Ffi
pub mod Helpers
pub mod Index
pub mod Merge
pub mod Prelude
pub mod Scanner
pub mod Segment
pub mod Selection
pub mod Stream
pub mod Waker
pub mod Write
