-- ===== src/Random/Period.antt =====
-- Random.cpp: sequences of calls of `xorshf96`.
use moose_tools.Prelude.{ℕ, zero, suc, ◌+◌, ◌≡◌, ◌≢◌, ap, arith, sym, ◌∙◌}
use moose_tools.Random.Xorshift.{
  Seeds, xorshf96, previous, IsBounded, previous-xorshf96, zero_seeds, previous-zero_seeds,
}

-- The variables after so many calls.
unfoldable pub run : ℕ → Seeds → Seeds
run zero v = v
run (suc n) v = (xorshf96 (run n v)).0

run-IsBounded : (n : ℕ) (v : Seeds) → IsBounded v → IsBounded (run n v)
unfolding run
run-IsBounded zero v b = b
run-IsBounded (suc n) v b = (previous-xorshf96 (run n v) (run-IsBounded n v b)).1

previous-run : (n : ℕ) (v : Seeds) → IsBounded v → previous (run (suc n) v) ≡ run n v
unfolding run
previous-run n v b = (previous-xorshf96 (run n v) (run-IsBounded n v b)).0

-- From variables that are 64-bit words: if a state comes again, the first state comes again as many
-- calls after the start. So the numbers repeat from the start on, and no call leads into a loop that
-- leaves the start out.
run-repeats : (m n : ℕ) (v : Seeds) → IsBounded v → run (m + n) v ≡ run m v → run n v ≡ v
unfolding run
run-repeats zero n v b e = ap (λ (k : ℕ). run k v) (omega arith) ∙ e
run-repeats (suc m) n v b e =
    let f : suc m + n ≡ suc (m + n) = omega arith in
    run-repeats m n v b (
      sym (previous-run (m + n) v b)
      ∙ ap (λ (k : ℕ). previous (run k v)) (sym f)
      ∙ ap previous e
      ∙ previous-run m v b)

-- From variables that are 64-bit words and not all 0, no number of calls leads to variables that are
-- all 0, where the generator would stay.
run-ne-zero_seeds : (n : ℕ) (v : Seeds) → IsBounded v → v ≢ zero_seeds → run n v ≢ zero_seeds
unfolding run
run-ne-zero_seeds zero v b h e = h e
run-ne-zero_seeds (suc n) v b h e =
    run-ne-zero_seeds n v b h (sym (previous-run n v b) ∙ ap previous e ∙ previous-zero_seeds)
