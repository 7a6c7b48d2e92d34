-- ===== src/Errors/Tests.antt =====
-- The theorems at concrete values.
use moose_tools.Prelude.{ℕ, ◌≡◌, refl, none, List, [], ◌∷◌, ◌+◌, ◌%◌, codes}
use moose_tools.Errors.{Karma, unsigned_int, error_argument}
use moose_tools.Errors.LastError.{
  Call, gets, sets, run, get_last_error, get_last_error-run, last_set,
}

-- Numbers of one digit.
abbrev digits : Karma
digits = record {
  Double = ℕ;
  Float = ℕ;
  uint_ = λ n. (b'0' + n % 10) ∷ [];
  int_ = λ n. (b'0' + n % 10) ∷ [];
  scientific_double = λ n. (b'0' + n % 10) ∷ codes "e0";
  scientific_float = λ n. (b'0' + n % 10) ∷ codes "e0";
}

appended : error_argument digits (unsigned_int 7) ≡ codes "<cannot determine argument type>7"
unfolding error_argument
appended = refl

abbrev calls : List Call
calls = sets 1 (codes "first") ∷ sets 2 (codes "second") ∷ gets 1 ∷ gets 3 ∷ []

get_last_error-run_example : (get_last_error (run (λ _. none) calls) 1).1 ≡ codes "first"
unfolding last_set
get_last_error-run_example = get_last_error-run calls 1
