-- ===== src/Random/Bounds.antt =====
-- Random.cpp and IdTagged.hpp: the ids that a thread makes.
use native.Mathlib.Nat.{mod-eq_of_lt}
use moose_tools.Prelude.{
  true, ℕ, ◌-◌, ◌%◌, ◌^◌, ◌≤◌, ◌<◌, ◌≡◌, ◌≢◌, refl, ap, ◌∙◌, Option, none, some, ltb, arith,
}
use moose_tools.Random.{
  Prng, Clock, IdTagged, gen, drawn, urand_between, tagged, random_id, id_in_range,
}

-- A thread that has its generator, or whose `faked_thread_id` is not 0.
abbrev CanDraw : {Engine : Type 0} → Clock → Option Engine → Type 0
CanDraw c none = c.tid ≢ 0
CanDraw c (some e) = Unit

module _ (P : Prng) where
  gen-some :
      (c : Clock) (e : Option P.Engine) → CanDraw c e → (e' : P.Engine) × (gen P c e ≡ some e')
  unfolding gen
  gen-some c (some e) h = (e, refl)
  gen-some c none h = (P.seeded (c.ns % c.tid), ground arith)

  drawn_id :
      (bits low high : ℕ) (c : Clock) (e : Option P.Engine) (e' : P.Engine)
      → gen P c e ≡ some e'
      → low < high
      → high < 2 ^ bits
      → id_in_range P bits low high c e
        ≡ some ((P.uniform low high e').0, record { id = (P.uniform low high e').1 })
  unfolding id_in_range urand_between drawn tagged
  drawn_id bits low high c e e' g l m =
      let n = (P.uniform low high e').1 in
      let small = P.uniform_max low high e' (omega arith) in
      let t : ltb low high ≡ true = ground arith in
      let v : n % 2 ^ bits ≡ n = mod-eq_of_lt (omega arith) in rw (t, g, v) refl

  pub id_in_range-between :
      (bits low high n : ℕ) (c : Clock) (e : Option P.Engine)
      → CanDraw c e
      → low < high
      → high < 2 ^ bits
      → low ≤ n
      → n ≤ high
      → ((e' : P.Engine) × (o : IdTagged) × (id_in_range P bits low high c e ≡ some (e', o))
          × (low ≤ o.id)
          × (o.id ≤ high))
        × ((s : P.Engine) × (s' : P.Engine) × (id_in_range P bits low high c (some s)
              ≡ some (s', record { id = n })))
  unfolding gen
  id_in_range-between bits low high n c e h l m a b =
      let (e', g) = gen-some c e h in
      let (s, r) = P.uniform_reaches low high n a b in
      (
        (
          (P.uniform low high e').0,
          record { id = (P.uniform low high e').1 },
          drawn_id bits low high c e e' g l m,
          P.uniform_min low high e' (omega arith),
          P.uniform_max low high e' (omega arith),
        ),
        (
          s,
          (P.uniform low high s).0,
          drawn_id bits low high c (some s) s refl l m
              ∙ ap (λ (k : ℕ). some ((P.uniform low high s).0, record { id = k })) r,
        ),
      )

  -- A thread that has its generator, or whose `faked_thread_id` is not 0, makes an object with an id
  -- of 2 bits or more: the constructor succeeds, and the id is from 1 to the type's largest value.
  random_id-nonzero :
      (bits : ℕ) (c : Clock) (e : Option P.Engine)
      → CanDraw c e
      → 4 ≤ 2 ^ bits
      → (e' : P.Engine) × (o : IdTagged) × (random_id P bits c e ≡ some (e', o))
        × (1 ≤ o.id)
        × (o.id ≤ 2 ^ bits - 1)
  unfolding random_id id_in_range
  random_id-nonzero bits c e h m =
      (id_in_range-between bits 1 (2 ^ bits - 1) 1 c e h (omega arith) (omega arith) (omega arith)
        (omega arith)).0
