-- ===== src/Errors/Argument.antt =====
-- Error.cpp: the text of the tag `error_argument`.
use moose_tools.Prelude.{◌≡◌, refl, take, length}
use moose_tools.Errors.{
  Karma, Any, unsigned_int, int, double, float, other, undetermined, error_argument,
}

-- The tag's text of every value begins with the words that no type could be determined, also where one
-- was.
take-error_argument :
    (K : Karma) (a : Any K) → take (length undetermined) (error_argument K a) ≡ undetermined
unfolding error_argument
take-error_argument K (unsigned_int n) = refl
take-error_argument K (int n) = refl
take-error_argument K (double x) = refl
take-error_argument K (float x) = refl
take-error_argument K other = refl
