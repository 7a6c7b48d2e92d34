-- ===== src/ThreadId/FirstUse.antt =====
-- ThreadId.cpp and Random.cpp: the generator that a thread makes of its number on first use.
use moose_tools.Prelude.{
  ℕ, ◌<◌, ◌%◌, ◌^◌, ◌≡◌, refl, Option, none, some, List, [], ◌∷◌, map, Bytes, ◌==◌, if◌then◌else◌,
  arith,
}
use moose_tools.Endpoints.Libraries.{Spirit}
use moose_tools.Random.{Prng, Clock}
use moose_tools.Random.Calls.{Call, fresh, run}
use moose_tools.Random.Seeding.{draws, run-fresh}
use moose_tools.ThreadId.{Printed, text, thread_resource_error, parsed, faked_thread_id}

module _ (S : Spirit) (string_hash : Bytes → ℕ) where
  faked_thread_id_number :
      (s : Bytes) (n : ℕ) → S.uint_ s ≡ some (n, []) → faked_thread_id S string_hash (text s) ≡ n
  unfolding faked_thread_id
  faked_thread_id_number s n u = rw (parsed, u) refl

  parsed-lt :
      (s : Bytes) (o : Option (ℕ × Bytes)) → S.uint_ s ≡ o → parsed S string_hash s o < 2 ^ 32
  unfolding parsed
  parsed-lt s none u = omega arith
  parsed-lt s (some (n, [])) u = S.uint_bound s n [] u
  parsed-lt s (some (n, c ∷ r)) u = omega arith

  -- The number of a thread fits an `unsigned int`, however its id is written, and where writing it
  -- throws.
  faked_thread_id-lt : (p : Printed) → faked_thread_id S string_hash p < 2 ^ 32
  unfolding faked_thread_id
  faked_thread_id-lt (text s) = parsed-lt s (S.uint_ s) refl
  faked_thread_id-lt (thread_resource_error address) = omega arith

  -- The calls of `urand` and `ruuid` by a thread that has made none, whose id is written as a number
  -- of 32 bits: for the number 0 the first call fails; else the answers are those of the same calls
  -- on one engine, seeded by the nanoseconds of the first call modulo the number. An assertion fails
  -- only at a range whose minimum is not below its maximum.
  pub run-faked_thread_id :
      (P : Prng) {Uuid : Type 0} (uuid_of : P.Engine → P.Engine × Uuid) (k : Call)
      (ks : List (Call × Clock)) (ns n : ℕ) (s : Bytes)
      → S.uint_ s ≡ some (n, [])
      → run P uuid_of
          ((k, record { ns = ns; tid = faked_thread_id S string_hash (text s) }) ∷ ks)
          fresh
        ≡ (if n == 0 then none else draws P uuid_of (k ∷ map (λ k'. k'.0) ks) (P.seeded (ns % n)))
  run-faked_thread_id P uuid_of k ks ns n s u =
      rw (faked_thread_id_number s n u) (run-fresh P uuid_of k (record { ns = ns; tid = n }) ks)
