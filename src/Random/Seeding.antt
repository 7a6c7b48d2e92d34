-- ===== src/Random/Seeding.antt =====
-- Random.cpp: a thread's generator is seeded once, whatever the thread calls.
use mathlib.Core.Option
use moose_tools.Prelude.{
  ◌>>=◌, ℕ, ◌≡◌, refl, ap, ◌-◌, ◌%◌, ◌==◌, Bool, true, false, ltb, if◌then◌else◌, Option, none,
  some, List, [], ◌∷◌, map, u64_mod, Bool-cases, inl, inr,
}
use moose_tools.Random.{Prng, Clock, gen, drawn, urand_to, urand_between, urand}
use moose_tools.Random.Calls.{
  Call, up_to, between, any, uuid, Answer, random_number, random_uuid, Thread, fresh,
  get_uuid_generator, uuid_drawn, ruuid, urand_answered, call, run,
}

module _ (P : Prng) {Uuid : Type 0} (uuid_of : P.Engine → P.Engine × Uuid) where
  -- The same calls on an engine that is there: numbers and uuids are drawn one after the other, and
  -- an assertion fails only for a range whose minimum is not below its maximum.
  number_of : P.Engine × ℕ → P.Engine × Answer Uuid
  number_of (e, n) = (e, random_number n)

  unfoldable pub draw : Call → P.Engine → Option (P.Engine × Answer Uuid)
  unfolding number_of
  draw (up_to n_max) e = some (number_of (P.uniform 0 n_max e))
  draw (between n_min n_max) e =
      if ltb n_min n_max then some (number_of (P.uniform n_min n_max e)) else none
  draw any e = some (number_of (P.uniform 0 (u64_mod - 1) e))
  draw uuid e = some ((uuid_of e).0, random_uuid (uuid_of e).1)

  unfoldable pub draws : List Call → P.Engine → Option (List (Answer Uuid))
  draws [] e = some []
  draws (k ∷ ks) e = do (e', a) ← draw k e; answers ← draws ks e'; some (a ∷ answers)

  flag : Call → Bool → Bool
  flag uuid b = true
  flag _ b = b

  kept : Bool → P.Engine × Answer Uuid → Thread P.Engine × Answer Uuid
  kept b (e, a) = (record { local_gen = some e; random_uid_generator = b }, a)

  call-some :
      (k : Call) (c : Clock) (e : P.Engine) (b : Bool)
      → call P uuid_of k c (record { local_gen = some e; random_uid_generator = b })
        ≡ Option.map (kept (flag k b)) (draw k e)
  unfolding call draw kept flag number_of urand_answered urand_to urand_between urand drawn gen
      ruuid get_uuid_generator uuid_drawn
  call-some (up_to n_max) c e b = refl
  call-some (between n_min n_max) c e b = elim (Bool-cases (ltb n_min n_max)) [
    | inl h ↦ rw h refl
    | inr h ↦ rw h refl
  ]
  call-some any c e b = refl
  call-some uuid c e true = refl
  call-some uuid c e false = refl

  bind_kept :
      {B : Type 0} (b : Bool) (o : Option (P.Engine × Answer Uuid))
      (f : Thread P.Engine × Answer Uuid → Option B) (g : P.Engine × Answer Uuid → Option B)
      → ((x : P.Engine × Answer Uuid) → f (kept b x) ≡ g x)
      → (Option.map (kept b) o >>= f) ≡ (o >>= g)
  bind_kept b none f g h = refl
  bind_kept b (some x) f g h = h x

  run-some :
      (ks : List (Call × Clock)) (e : P.Engine) (b : Bool)
      → run P uuid_of ks (record { local_gen = some e; random_uid_generator = b })
        ≡ draws (map (λ k. k.0) ks) e
  unfolding run draws kept
  run-some [] e b = refl
  run-some ((k, c) ∷ ks) e b = rw (call-some k c e b) (
      bind_kept (flag k b) (draw k e) _ _
        (λ (e', a). ap (λ r. r >>= λ answers. some (a ∷ answers)) (run-some ks e' (flag k b))))

  fresh_fails : (k : Call) (c : Clock) → (c.tid == 0) ≡ true → call P uuid_of k c fresh ≡ none
  unfolding call urand_answered urand_to urand_between urand drawn gen ruuid get_uuid_generator
      uuid_drawn
  fresh_fails (up_to n_max) c h = rw h refl
  fresh_fails (between n_min n_max) c h = elim (Bool-cases (ltb n_min n_max)) [
    | inl l ↦ rw (l, h) refl
    | inr l ↦ rw l refl
  ]
  fresh_fails any c h = rw h refl
  fresh_fails uuid c h = rw h refl

  fresh_seeds :
      (k : Call) (c : Clock)
      → (c.tid == 0) ≡ false
      → call P uuid_of k c fresh
        ≡ call P uuid_of k c
            (record { local_gen = some (P.seeded (c.ns % c.tid)); random_uid_generator = false })
  unfolding call urand_answered urand_to urand_between urand drawn gen ruuid get_uuid_generator
      uuid_drawn
  fresh_seeds (up_to n_max) c h = rw h refl
  fresh_seeds (between n_min n_max) c h = rw h refl
  fresh_seeds any c h = rw h refl
  fresh_seeds uuid c h = rw h refl

  -- The calls of a thread that has made none: if the thread's number is 0 the first call fails; else
  -- they are the same calls on one engine, which is seeded at the first call, and whose numbers
  -- urand and ruuid share.
  pub run-fresh :
      (k : Call) (c : Clock) (ks : List (Call × Clock))
      → run P uuid_of ((k, c) ∷ ks) fresh
        ≡ (if c.tid == 0 then none else draws (k ∷ map (λ k'. k'.0) ks) (P.seeded (c.ns % c.tid)))
  unfolding run draws
  run-fresh k c ks = elim (Bool-cases (c.tid == 0)) [
    | inl h ↦ rw (fresh_fails k c h, h) refl
    | inr h ↦ rw (fresh_seeds k c h, h) (run-some ((k, c) ∷ ks) (P.seeded (c.ns % c.tid)) false)
  ]
