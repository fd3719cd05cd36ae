-- ===== src/Scanner/Small.antt =====
-- A small stand-in for the libraries that a scanner calls, for the tests.
use lance_c.Prelude.{String, List, ℕ, text, some, true, ok, leb}
use lance_c.Ffi.Outcome.{done}
use lance_c.Ffi.LastError.{ErrorKind}
use lance_c.Scanner.Config.{External, FieldType, DataType}

-- a dataset with one vector column of dimension 2, whose buffers are aligned
abbrev pub small : External
small = record {
  Dataset = ℕ;
  Buffer = List ℕ;
  Array = List ℕ;
  Float = ℕ;
  FtsQuery = String;
  FtsContext = ℕ;
  Callback = ℕ;
  field = λ d name. some (FieldType.fixed_size_list (some DataType.float32) 2);
  address = λ b. 64;
  copy = λ t b n. b;
  all_finite = λ a. true;
  matrix = λ t n a. ok a;
  datafusion_error = λ m. record { kind = ErrorKind.otherwise; display = done (text m) };
  is_finite = λ f. true;
  float_ge = λ a b. leb b a;
  same_snapshot = λ c d. true;
  fts_new = λ q. q;
  fts_fuzzy = λ q n. q;
  fts_with_columns = λ q cs. ok q;
}
