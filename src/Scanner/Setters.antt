-- ===== src/Scanner/Setters.antt =====
-- The configuration calls, on a handle that is not NULL: what each checks, in order, and what it
-- writes. A pointer that may be NULL is an `Option`, a pointer with a length a `Slice`.
use lance_c.Prelude.{
  ℕ, zero, suc, ℤ, pos, negsuc, ◌^◌, ◌-◌, Option, none, some, Bool, true, false, List, [], Result,
  ok, err, ◌>>=◌, ◌>>◌, guard, not, ◌&&◌, ◌==◌, ltb, is_some, if◌then◌else◌,
}
use lance_c.Ffi.LastError.{LanceError}
use lance_c.Scanner.Config.{
  External, Scanner, NearestQuery, batch, BlobHandling, blobs_descriptions, all_binary,
  all_descriptions, invalid,
}

pub data Slice : Type 0 where
  null : ℕ → Slice
  buffer : List ℕ → Slice

-- `slice::from_raw_parts` behind the test for NULL with a positive length
abbrev pub read_slice : Slice → LanceError → Result LanceError (List ℕ)
read_slice (null len) e = if len == 0 then ok [] else err e
read_slice (buffer items) e = ok items

-- `batch_size as usize`: a negative `i64` wraps around
abbrev pub as_usize : ℤ → ℕ
as_usize (pos n) = n
as_usize (negsuc n) = 2 ^ 64 - suc n

abbrev pub is_strict : Option Bool → Bool
is_strict none = false
is_strict (some b) = b

abbrev pub blob_handling_of : ℤ → Result LanceError BlobHandling
blob_handling_of (pos zero) = ok blobs_descriptions
blob_handling_of (pos (suc zero)) = ok all_binary
blob_handling_of (pos (suc (suc zero))) = ok all_descriptions
blob_handling_of _ = err (invalid "blob_handling must be 0, 1 or 2")

module _ {x : External} where
  abbrev pub not_started : Scanner x → LanceError → Result LanceError (Unit {0})
  not_started s e = guard (not s.scan_started) e

  abbrev pub is_batch : Option (NearestQuery x) → Bool
  is_batch none = false
  is_batch (some q) = elim (q.mode) [ batch n ↦ true | _ ↦ false ]

  unfoldable pub set_limit : ℤ → Scanner x → Result LanceError (Scanner x)
  set_limit limit s = do
    guard (not (is_batch s.nearest)) (invalid "global limit is unsupported for batch nearest")
    ok (record s { limit = some limit })

  unfoldable pub set_offset : ℤ → Scanner x → Result LanceError (Scanner x)
  set_offset offset s = do
    guard (not (is_batch s.nearest)) (invalid "global offset is unsupported for batch nearest")
    ok (record s { offset = some offset })

  unfoldable pub set_batch_size : ℤ → Scanner x → Result LanceError (Scanner x)
  set_batch_size batch_size s = ok (record s { batch_size = some (as_usize batch_size) })

  unfoldable pub set_batch_size_bytes : ℕ → Scanner x → Result LanceError (Scanner x)
  set_batch_size_bytes bytes s = do
    guard (not (bytes == 0)) (invalid "batch_size_bytes must be greater than 0, got 0")
    not_started s (invalid "batch_size_bytes must be set before the scan starts")
    guard (not (is_strict s.strict_batch_size))
        (invalid "strict_batch_size=true cannot be combined with batch_size_bytes")
    ok (record s { batch_size_bytes = some bytes })

  unfoldable pub set_io_buffer_size : ℕ → Scanner x → Result LanceError (Scanner x)
  set_io_buffer_size bytes s = do
    guard (not (bytes == 0)) (invalid "io_buffer_size_bytes must be greater than 0, got 0")
    guard (ltb bytes (2 ^ 63)) (invalid "io_buffer_size_bytes must be at most 9223372036854775807")
    not_started s (invalid "io_buffer_size_bytes must be set before the scan starts")
    ok (record s { io_buffer_size = some bytes })

  unfoldable pub set_batch_readahead : ℕ → Scanner x → Result LanceError (Scanner x)
  set_batch_readahead n s = do
    guard (not (n == 0)) (invalid "batch_readahead must be greater than 0, got 0")
    not_started s (invalid "batch_readahead must be set before the scan starts")
    ok (record s { batch_readahead = some n })

  unfoldable pub set_fragment_readahead : ℕ → Scanner x → Result LanceError (Scanner x)
  set_fragment_readahead n s = do
    guard (not (n == 0)) (invalid "fragment_readahead must be greater than 0, got 0")
    not_started s (invalid "fragment_readahead must be set before the scan starts")
    ok (record s { fragment_readahead = some n })

  unfoldable pub set_target_parallelism : ℕ → Scanner x → Result LanceError (Scanner x)
  set_target_parallelism n s = do
    guard (not (n == 0)) (invalid "target_parallelism must be greater than 0, got 0")
    not_started s (invalid "target_parallelism must be set before the scan starts")
    ok (record s { target_parallelism = some n })

  unfoldable pub set_scan_in_order : Bool → Scanner x → Result LanceError (Scanner x)
  set_scan_in_order b s = do
    not_started s (invalid "scan_in_order must be set before the scan starts")
    ok (record s { scan_in_order = some b })

  unfoldable pub set_use_scalar_index : Bool → Scanner x → Result LanceError (Scanner x)
  set_use_scalar_index b s = do
    not_started s (invalid "use_scalar_index must be set before the scan starts")
    ok (record s { use_scalar_index = some b })

  unfoldable pub set_strict_batch_size : Bool → Scanner x → Result LanceError (Scanner x)
  set_strict_batch_size b s = do
    not_started s (invalid "strict_batch_size must be set before the scan starts")
    guard (not (b && is_some s.batch_size_bytes))
        (invalid "strict_batch_size=true cannot be combined with batch_size_bytes")
    ok (record s { strict_batch_size = some b })

  unfoldable pub set_use_stats : Bool → Scanner x → Result LanceError (Scanner x)
  set_use_stats b s = do
    not_started s (invalid "use_stats must be set before the scan starts")
    ok (record s { use_stats = some b })

  unfoldable pub set_blob_handling : ℤ → Scanner x → Result LanceError (Scanner x)
  set_blob_handling handling s = do
    not_started s (invalid "blob_handling must be set before the scan starts")
    parsed ← blob_handling_of handling
    ok (record s { blob_handling = some parsed })

  unfoldable pub with_row_id : Bool → Scanner x → Result LanceError (Scanner x)
  with_row_id enable s = ok (record s { with_row_id = enable })

  unfoldable pub with_row_address : Bool → Scanner x → Result LanceError (Scanner x)
  with_row_address enable s = do
    not_started s (invalid "with_row_address must be set before the scan starts")
    ok (record s { with_row_address = enable })

  unfoldable pub set_include_deleted_rows : Bool → Scanner x → Result LanceError (Scanner x)
  set_include_deleted_rows b s = do
    not_started s (invalid "include_deleted_rows must be set before the scan starts")
    ok (record s { include_deleted_rows = b })
