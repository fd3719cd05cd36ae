-- ===== src/Ffi/LastError.antt =====
-- The thread-local error slot: `LanceErrorCode`, `LastError` and what reads and writes them.
use lance_c.Prelude.{ℕ, Text, text, Option, none, some, has_nul, replace_nul, if◌then◌else◌}
use lance_c.Ffi.Outcome.{Payload, str, string, other, Caught, Act, lift, ◌>>=◌}

pub data ErrorCode : Type 0 where
  ok : ErrorCode
  invalid_argument : ErrorCode
  io_error : ErrorCode
  not_found : ErrorCode
  dataset_already_exists : ErrorCode
  index_error : ErrorCode
  internal : ErrorCode
  not_supported : ErrorCode
  commit_conflict : ErrorCode
  panic : ErrorCode

-- The `#[repr(C)]` discriminants that the C header publishes.
unfoldable pub discriminant : ErrorCode → ℕ
discriminant ok = 0
discriminant invalid_argument = 1
discriminant io_error = 2
discriminant not_found = 3
discriminant dataset_already_exists = 4
discriminant index_error = 5
discriminant internal = 6
discriminant not_supported = 7
discriminant commit_conflict = 8
discriminant panic = 9

-- The variants of `lance_core::Error` that the source tells apart; `otherwise` is all the rest.
pub data ErrorKind : Type 0 where
  invalid_input : ErrorKind
  dataset_already_exists : ErrorKind
  commit_conflict : ErrorKind
  dataset_not_found : ErrorKind
  not_found : ErrorKind
  index_not_found : ErrorKind
  io : ErrorKind
  index : ErrorKind
  not_supported : ErrorKind
  otherwise : ErrorKind

-- An error value: its variant, and what its `Display` does, which may panic.
pub record LanceError : Type 0 where
  pub kind : ErrorKind
  pub display : Caught Text

pub record LastError : Type 0 where
  pub code : ErrorCode
  pub message : Text

-- `CString::new`, which refuses an interior NUL.
abbrev pub c_string : Text → Option Text
c_string t = if has_nul t then none else some t

abbrev pub or_fallback : Option Text → Text → Text
or_fallback none fallback = fallback
or_fallback (some t) fallback = t

unfoldable pub sanitize : Text → Text
sanitize message =
    or_fallback (c_string message)
      (or_fallback (c_string (replace_nul message)) (text "invalid error message"))

module _ {W : Type 0} where
  unfoldable pub clear_last_error : Act LastError W (Unit {0})
  clear_last_error s = (Caught.done tt, record s { tls = none })

  unfoldable pub set_last_error : ErrorCode → Text → Act LastError W (Unit {0})
  unfolding sanitize
  set_last_error code message s =
      (Caught.done tt, record s { tls = some (record { code = code; message = sanitize message }) })

unfoldable pub error_code_from_kind : ErrorKind → ErrorCode
error_code_from_kind invalid_input = invalid_argument
error_code_from_kind dataset_already_exists = dataset_already_exists
error_code_from_kind commit_conflict = commit_conflict
error_code_from_kind dataset_not_found = not_found
error_code_from_kind not_found = not_found
error_code_from_kind index_not_found = not_found
error_code_from_kind io = io_error
error_code_from_kind index = index_error
error_code_from_kind not_supported = not_supported
error_code_from_kind otherwise = internal

abbrev pub code_of : Option LastError → ErrorCode
code_of none = ok
code_of (some e) = e.code

abbrev pub message_of : Option LastError → Option Text
message_of none = none
message_of (some e) = some e.message

module _ {W : Type 0} where
  -- The message is formatted first, and formatting may panic before anything is stored.
  unfoldable pub set_lance_error : LanceError → Act LastError W (Unit {0})
  unfolding set_last_error error_code_from_kind
  set_lance_error e = do
    message ← lift e.display
    set_last_error (error_code_from_kind e.kind) message

  unfoldable pub lance_last_error_code : Act LastError W ErrorCode
  lance_last_error_code s = (Caught.done (code_of s.tls), s)

  -- The message is taken out of the slot; `none` is the NULL that C gets.
  unfoldable pub lance_last_error_message : Act LastError W (Option Text)
  lance_last_error_message s = (Caught.done (message_of s.tls), record s { tls = none })

-- The text of a panic, free of NUL.
unfoldable pub panic_payload_message : Payload → Text
panic_payload_message (str t) = replace_nul t
panic_payload_message (string t) = replace_nul t
panic_payload_message other = replace_nul (text "unknown panic payload")
