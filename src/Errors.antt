-- ===== src/Errors.antt =====
-- Error.hpp and Error.cpp: the exception classes, and the result of code that may throw.
pub mod Argument
pub mod LastError
mod Tests
use moose_tools.Prelude.{ℕ, String, Option, none, some, Bytes, codes, ◌++◌}

-- The exception classes of Error.hpp.
pub data Kind : Type 0 where
  moose_error unit_test_error protocol_error internal_error ui_error : Kind
  io_error serialization_error file_error network_error : Kind

-- The class that a class derives from; `moose_error` has none of these.
unfoldable pub base : Kind → Option Kind
base Kind.moose_error = none
base Kind.unit_test_error = some Kind.moose_error
base Kind.protocol_error = some Kind.moose_error
base Kind.internal_error = some Kind.moose_error
base Kind.ui_error = some Kind.internal_error
base Kind.io_error = some Kind.moose_error
base Kind.serialization_error = some Kind.io_error
base Kind.file_error = some Kind.io_error
base Kind.network_error = some Kind.io_error

-- `what()` of each class.
unfoldable pub what : Kind → String
what Kind.moose_error = "Generic error"
what Kind.unit_test_error = "Unit Test specific error"
what Kind.protocol_error = "Protocol implementation error"
what Kind.internal_error = "Internal error"
what Kind.ui_error = "UI setup error"
what Kind.io_error = "Generic I/O error"
what Kind.serialization_error = "Serialization error"
what Kind.file_error = "Filesystem error"
what Kind.network_error = "Network error"

-- A thrown object with its `error_message` and `error_argument` tags.
pub record Exception : Type 0 where
  pub kind : Kind
  pub message : String
  pub argument : Option Bytes

pub data Result {ℓ} (A : Type ℓ) : Type ℓ where
  ok : A → Result A
  thrown : Exception → Result A

infixl 5 ◌>>=◌
abbrev pub ◌>>=◌ {ℓ κ} : {A : Type ℓ} {B : Type κ} → Result A → (A → Result B) → Result B
ok a >>= f = f a
thrown e >>= f = thrown e

-- What `error_argument(const boost::any &)` writes first.
abbrev pub undetermined : Bytes
undetermined = codes "<cannot determine argument type>"

-- The tag of a text is the text.
unfoldable pub error_argument_string : Bytes → Bytes
error_argument_string string = string

-- The number generators of Boost.Karma, on the values of the four types: `uint_`, `int_`, and the real
-- ones with the policy that is scientific and has 15 digits. A `double` or `float` is the library's
-- business.
pub record Karma : Type 1 where
  pub Double : Type 0
  pub Float : Type 0
  pub uint_ : ℕ → Bytes
  pub int_ : ℕ → Bytes
  pub scientific_double : Double → Bytes
  pub scientific_float : Float → Bytes

-- `boost::any`, by the types that the code tells apart; an `int` is its bit pattern.
pub data Any (K : Karma) : Type 0 where
  unsigned_int : ℕ → Any K
  int : ℕ → Any K
  double : K.Double → Any K
  float : K.Float → Any K
  other : Any K

-- The text of the tag `error_argument` made of a value: what is generated goes behind the first text.
pub error_argument : (K : Karma) → Any K → Bytes
error_argument K (unsigned_int n) = undetermined ++ K.uint_ n
error_argument K (int n) = undetermined ++ K.int_ n
error_argument K (double x) = undetermined ++ K.scientific_double x
error_argument K (float x) = undetermined ++ K.scientific_float x
error_argument K other = undetermined
