-- ===== src/Random/Tests.antt =====
-- The ids at a concrete generator.
use moose_tools.Prelude.{◌≡◌, ◌≢◌, arith}
use moose_tools.Random.{Clock}
use moose_tools.Random.Xorshift.{
  xorshf96, previous, initial_seeds, zero_seeds, IsBounded, previous-xorshf96,
}

abbrev clock : Clock
clock = record { ns = 1234; tid = 7 }

initial_seeds-IsBounded : IsBounded initial_seeds
initial_seeds-IsBounded = record { x_lt = omega arith; y_lt = omega arith; z_lt = omega arith }

initial_seeds-ne-zero_seeds : initial_seeds ≢ zero_seeds
initial_seeds-ne-zero_seeds e = absurd (ground arith)

previous-xorshf96_example :
    (previous (xorshf96 initial_seeds).0 ≡ initial_seeds) × IsBounded (xorshf96 initial_seeds).0
previous-xorshf96_example = previous-xorshf96 initial_seeds initial_seeds-IsBounded
