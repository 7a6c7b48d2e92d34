-- ===== src/Random/Plain.antt =====
-- An instance of `Prng`.
use moose_tools.Prelude.{ℕ, ◌+◌, ◌-◌, ◌%◌, ◌≤◌, ◌≡◌, arith}
use native.Mathlib.Nat.{mod-lt, mod-eq_of_lt}
use moose_tools.Random.{Prng}

pub drawn_max : (a b e : ℕ) → a ≤ b → a + e % (b - a + 1) ≤ b
drawn_max a b e h =
    let m : e % (b - a + 1) ≤ b - a = omega (arith, mod-lt e {m = b - a + 1} (omega arith)) in
    omega arith

pub drawn_reaches : (a b n : ℕ) → a ≤ n → n ≤ b → a + (n - a) % (b - a + 1) ≡ n
drawn_reaches a b n h k =
    let m : (n - a) % (b - a + 1) ≡ n - a = mod-eq_of_lt (omega arith) in omega (arith, m)

-- An engine that counts.
abbrev pub counter : Prng
counter = record {
  Engine = ℕ;
  seeded = λ n. n;
  uniform = λ a b e. (e + 1, a + e % (b - a + 1));
  uniform_min = λ a b e h. omega arith;
  uniform_max = λ a b e h. drawn_max a b e h;
  uniform_reaches = λ a b n h k. (n - a, drawn_reaches a b n h k);
}
