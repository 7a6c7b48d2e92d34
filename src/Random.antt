-- ===== src/Random.antt =====
-- Random.cpp and IdTagged.hpp: random numbers and the ids made of them. A thread's state is its
-- generator, which the first use creates; `none` as a result is a failed assertion or a division by 0.
pub mod Bounds
pub mod Plain
pub mod Calls
pub mod Seeding
mod Bits
pub mod Xorshift
pub mod Period
mod Tests
use moose_tools.Prelude.{
  ℕ, ◌+◌, ◌-◌, ◌%◌, ◌^◌, ◌≤◌, ◌≡◌, Option, none, some, ltb, ◌==◌, if◌then◌else◌, u64_mod,
}

-- `boost::random::mt19937`, with `uniform_int_distribution` from a minimum to a maximum, both included.
pub record Prng : Type 1 where
  pub Engine : Type 0
  pub seeded : ℕ → Engine
  pub uniform : ℕ → ℕ → Engine → Engine × ℕ
  pub uniform_min : (a b : ℕ) (e : Engine) → a ≤ b → a ≤ (uniform a b e).1
  pub uniform_max : (a b : ℕ) (e : Engine) → a ≤ b → (uniform a b e).1 ≤ b
  -- every number of the range is drawn in some state
  pub uniform_reaches : (a b n : ℕ) → a ≤ n → n ≤ b → (e : Engine) × ((uniform a b e).1 ≡ n)

-- What a call reads besides the generator: the nanoseconds that `faked_thread_id` took, and its result.
pub record Clock : Type 0 where
  pub ns : ℕ
  pub tid : ℕ

pub record IdTagged : Type 0 where
  pub id : ℕ

-- `IdTagged(n_id)`
given_id : ℕ → IdTagged
given_id n = record { id = n }

-- `IdExtractor`, of an object and of a pointer; `none` is the failed assertion on a null pointer.
extracted : IdTagged → ℕ
extracted o = o.id

extracted_from_pointer : Option IdTagged → Option ℕ
extracted_from_pointer none = none
extracted_from_pointer (some o) = some (extracted o)

module _ (P : Prng) where
  gen : Clock → Option P.Engine → Option P.Engine
  gen c (some e) = some e
  gen c none = if c.tid == 0 then none else some (P.seeded (c.ns % c.tid))

  drawn : ℕ → ℕ → Option P.Engine → Option (P.Engine × ℕ)
  drawn n_min n_max none = none
  drawn n_min n_max (some e) = some (P.uniform n_min n_max e)

  -- `urand(n_max)`
  pub urand_to : ℕ → Clock → Option P.Engine → Option (P.Engine × ℕ)
  unfolding drawn gen
  urand_to n_max c e = drawn 0 n_max (gen c e)

  -- `urand(n_min, n_max)`
  pub urand_between : ℕ → ℕ → Clock → Option P.Engine → Option (P.Engine × ℕ)
  unfolding drawn gen
  urand_between n_min n_max c e = if ltb n_min n_max then drawn n_min n_max (gen c e) else none

  -- `urand()`
  pub urand : Clock → Option P.Engine → Option (P.Engine × ℕ)
  unfolding urand_to
  urand c e = urand_to (u64_mod - 1) c e

  -- The number becomes an id of so many bits.
  tagged : ℕ → Option (P.Engine × ℕ) → Option (P.Engine × IdTagged)
  tagged bits none = none
  tagged bits (some (e, n)) = some (e, record { id = n % 2 ^ bits })

  -- `IdTagged()`, for an unsigned id type of so many bits
  pub random_id : ℕ → Clock → Option P.Engine → Option (P.Engine × IdTagged)
  unfolding tagged urand_between
  random_id bits c e = tagged bits (urand_between 1 (2 ^ bits - 1) c e)

  -- `IdTagged(n_id_min, n_id_max)`
  pub id_in_range : ℕ → ℕ → ℕ → Clock → Option P.Engine → Option (P.Engine × IdTagged)
  unfolding tagged urand_between
  id_in_range bits n_id_min n_id_max c e = tagged bits (urand_between n_id_min n_id_max c e)
