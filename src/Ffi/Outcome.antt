-- ===== src/Ffi/Outcome.antt =====
-- Computations that read and write the thread-local error and the rest of the process, and that
-- may panic. `Caught` is what `std::panic::catch_unwind` returns.
use lance_c.Prelude.{Text, Option}

-- What a panic carries: `&str`, `String`, or a value of another type.
pub data Payload : Type 0 where
  str : Text → Payload
  string : Text → Payload
  other : Payload

pub data Caught (A : Type 0) : Type 0 where
  done : A → Caught A
  panicked : Payload → Caught A

-- `E` is the thread's last error, and `W` all else that the code reads and writes.
pub record State (E W : Type 0) : Type 0 where
  pub tls : Option E
  pub world : W

abbrev pub Act : Type 0 → Type 0 → Type 0 → Type 0
Act E W A = State E W → Caught A × State E W

module _ {E W A : Type 0} where
  abbrev pub pure : A → Act E W A
  pure a s = (done a, s)

  abbrev pub panic : Payload → Act E W A
  panic p s = (panicked p, s)

  -- code that touches nothing and may panic
  abbrev pub lift : Caught A → Act E W A
  lift c s = (c, s)

  -- `catch_unwind` itself returns always; what the closure wrote before the panic stays written.
  abbrev pub catch_unwind : Act E W A → Act E W (Caught A)
  catch_unwind m s = let (r, t) = m s in (done r, t)

  abbrev pub gets_world : (W → A) → Act E W A
  gets_world f s = (done (f s.world), s)

  abbrev pub resume_unwind : Payload → Act E W A
  resume_unwind p s = (panicked p, s)

module _ {E W A B : Type 0} where
  abbrev pub continue : Caught A → (A → Act E W B) → Act E W B
  continue (done a) f s = f a s
  continue (panicked p) f s = (panicked p, s)

  infixl 5 ◌>>=◌ ◌>>◌
  abbrev pub ◌>>=◌ : Act E W A → (A → Act E W B) → Act E W B
  ◌>>=◌ m f s = let (r, t) = m s in continue r f t

  abbrev pub ◌>>◌ : Act E W A → Act E W B → Act E W B
  m >> n = m >>= λ _. n

module _ {E W : Type 0} where
  abbrev pub put_world : (W → W) → Act E W (Unit {0})
  put_world f s = (done tt, record s { world = f s.world })
