-- ===== src/UnitTests.antt =====
-- The unit tests (test): a test case is a function that returns what its checks find, in their order.
-- Where a case requires a condition, or an exception is not caught, it ends there.
pub mod Containers
pub mod Texts
pub mod Addresses
pub mod Locks
pub mod Streambufs
pub mod Connections
use moose_tools.Prelude.{Bool, true, false, ◌&&◌, Option, none, some, List, [], ◌∷◌}
use moose_tools.Errors.{Kind, Result, ok, thrown}

abbrev pub Checks : Type 0
Checks = Result (List Bool)

-- A loop that has not ended counts as a failure of the case.
unfoldable pub loop_of {ℓ} : {A : Type ℓ} → Option (Result A) → Result A
loop_of (some r) = r
loop_of none = thrown (record { kind = Kind.unit_test_error; message = "no end"; argument = none })

unfoldable pub all_hold : List Bool → Bool
all_hold [] = true
all_hold (b ∷ bs) = b && all_hold bs

-- No exception leaves the case, and every check holds.
unfoldable pub passes : Checks → Bool
unfolding all_hold
passes (ok bs) = all_hold bs
passes (thrown e) = false
