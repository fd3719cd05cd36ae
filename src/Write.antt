-- ===== src/Write.antt =====
-- What the calls that write share (src/writer.rs, fragment_writer.rs, add_columns.rs, merge_insert.rs
-- and the smaller ones): the caller's memory, the Arrow stream that is handed over, and the locked
-- dataset. A reader that Lance is given is dropped by Lance, so where it ends does not matter here.
pub mod Lance
pub mod Params
pub mod Parse
pub mod Columns
pub mod Rows
pub mod Create
pub mod Keeps
pub mod Consumed
pub mod Transacts
pub mod Changes
pub mod Valid
pub mod Transactions
mod Examples
use text.Mathlib.Text.{◌==◌ as str_eq}
use lance_c.Prelude.{
  ℕ, ◌+◌, ℤ, pos, negsuc, String, Option, none, some, Bool, true, false, List, [], ◌∷◌, Result, ok,
  err, if◌then◌else◌,
}
use lance_c.Ffi.Outcome.{Caught, done, panicked, Act, State, continue}
use lance_c.Ffi.LastError.{LanceError, LastError}
use lance_c.Ffi.Guard.{ffi_try}
use lance_c.Scanner.Config.{invalid}
use lance_c.Helpers.{CString, parse_c_string}
use lance_c.Dataset.{Lock, Mutation, with_mut}

-- The caller's `FFI_ArrowArrayStream`: whether its `release` is still there, which of the other
-- callbacks it came with, and how often the producer's `release` was called.
pub record Source : Type 0 where
  pub release : Bool
  pub get_schema : Bool
  pub get_next : Bool
  pub released : ℕ

-- The memory of a call: the dataset, the stream, and the slot for the result. A pointer that is NULL
-- is `none`.
pub record Caller (D O : Type 0) : Type 0 where
  pub dataset : Option (Lock D)
  pub source : Option Source
  pub out : Option O

abbrev pub Call : Type 0 → Type 0 → Type 0 → Type 0
Call D O A = Act LastError (Caller D O) (Result LanceError A)

module _ {D O A : Type 0} where
  -- what `?` gets: a value that was computed without touching the memory
  abbrev pub given : Result LanceError A → Call D O A
  given r s = (done r, s)

  -- code of a library, which may panic
  abbrev pub attempt : Caught (Result LanceError A) → Call D O A
  attempt c s = (c, s)

module _ {D O A B : Type 0} where
  abbrev pub proceed : Result LanceError A → (A → Call D O B) → Call D O B
  proceed (ok a) f = f a
  proceed (err e) f = given (err e)

  infixl 5 ◌>>=◌ ◌>>◌
  unfoldable pub ◌>>=◌ : Call D O A → (A → Call D O B) → Call D O B
  ◌>>=◌ m f s = let (r, t) = m s in continue r (λ a. proceed a f) t

  abbrev pub ◌>>◌ : Call D O A → Call D O B → Call D O B
  m >> n = m >>= λ _. n

abbrev pub dropped : Option Source → Option Source
dropped none = none
dropped (some src) = some (record src { released = src.released + 1 })

module _ {D O : Type 0} where
  -- `if p { return Err(…) }`
  abbrev pub refuse_if : Bool → String → Call D O (Unit {0})
  refuse_if true message = given (err (invalid message))
  refuse_if false message = given (ok tt)

  -- a pointer that must not be NULL
  abbrev pub require : {A : Type 0} → Option A → String → Call D O A
  require none message = given (err (invalid message))
  require (some a) message = given (ok a)

  -- the stream that the caller's struct held is released
  abbrev pub drop_reader : Caller D O → Caller D O
  drop_reader c = record c { source = dropped c.source }

  abbrev pub take_source : Source → Caller D O → Caller D O
  take_source src c = record c { source = some (record src { release = false }) }

module _ {D O : Type 0} where
  abbrev pub dataset_pointer : Call D O (Option (Lock D))
  dataset_pointer s = (done (ok s.world.dataset), s)

  abbrev pub stream_pointer : Call D O (Option Source)
  stream_pointer s = (done (ok s.world.source), s)

module _ {D O X : Type 0} where
  -- an import that fails is an invalid argument
  abbrev pub imported : Caught (Option X) → Call D O X
  imported (done none) = given (err (invalid "the stream has no schema that can be converted"))
  imported (done (some schema)) = given (ok schema)
  imported (panicked p) = attempt (panicked p)

module _ {D O X A : Type 0} where
  -- `ArrowArrayStreamReader::from_raw`, which moves the caller's struct, and what is done with the
  -- reader until it is dropped, by a return, an error or a panic. `import` is what the producer's
  -- `get_schema` and the conversion of its schema give.
  unfoldable pub with_reader : Source → Caught (Option X) → (X → Call D O A) → Call D O A
  unfolding ◌>>=◌
  with_reader src import body s =
      if src.release
      then (let (r, t) =
            (imported import >>= body) (record s { world = take_source src s.world }) in
          (r, record t { world = drop_reader t.world }))
      else (
        done (err (invalid "the stream is released")),
        record s { world = take_source src s.world },
      )

-- the result slot is written, unless its pointer is NULL
abbrev pub written : {O : Type 0} → O → Option O → Option O
written o none = none
written o (some _) = some o

module _ {D O : Type 0} where
  abbrev pub stored :
      {A : Type 0}
      → Caught A × State LastError (Lock D)
      → Caller D O
      → Caught A × State LastError (Caller D O)
  stored (r, t) c = (r, record { tls = t.tls; world = record c { dataset = some t.world } })

  -- `ds.with_mut(…)?` on the dataset behind the pointer
  unfoldable pub mutated : {A : Type 0} → Lock D → Mutation D (Result LanceError A) → Call D O A
  unfolding with_mut
  mutated lock f s = stored (with_mut f (record { tls = s.tls; world = lock })) s.world

  abbrev pub write_out : O → Call D O (Unit {0})
  write_out o s =
      (done (ok tt), record s { world = record (s.world) { out = written o s.world.out } })

  -- an entry point: `ffi_try!(…, neg)`
  abbrev pub entry : Call D O ℤ → Act LastError (Caller D O) ℤ
  entry body = ffi_try body (negsuc 0)
