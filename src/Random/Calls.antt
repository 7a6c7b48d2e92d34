-- ===== src/Random/Calls.antt =====
-- Random.cpp: the calls of one thread, which share its generator. The uuid generator keeps a pointer
-- to it, so that it draws of the same numbers.
use mathlib.Core.Option
use moose_tools.Prelude.{
  ◌>>=◌, ℕ, Bool, true, false, if◌then◌else◌, Option, none, some, List, [], ◌∷◌,
}
use moose_tools.Random.{Prng, Clock, gen, urand_to, urand_between, urand}

-- `urand(n_max)`, `urand(n_min, n_max)`, `urand()` and `ruuid()`
pub data Call : Type 0 where
  up_to : ℕ → Call
  between : ℕ → ℕ → Call
  any uuid : Call

pub data Answer (Uuid : Type 0) : Type 0 where
  random_number : ℕ → Answer Uuid
  random_uuid : Uuid → Answer Uuid

-- `local_gen`, and whether `random_uid_generator` is set
pub record Thread (Engine : Type 0) : Type 0 where
  pub local_gen : Option Engine
  pub random_uid_generator : Bool

abbrev pub fresh : {Engine : Type 0} → Thread Engine
fresh = record { local_gen = none; random_uid_generator = false }

-- `boost::uuids::basic_random_generator` is the parameter `uuid_of`.
module _ (P : Prng) {Uuid : Type 0} (uuid_of : P.Engine → P.Engine × Uuid) where
  unfoldable pub get_uuid_generator : Clock → Thread P.Engine → Option (Thread P.Engine)
  unfolding gen
  get_uuid_generator c t =
      if t.random_uid_generator
      then some t
      else Option.map (λ e. record { local_gen = some e; random_uid_generator = true })
          (gen P c t.local_gen)

  unfoldable pub uuid_drawn : Option (Thread P.Engine) → Option (Thread P.Engine × Answer Uuid)
  uuid_drawn none = none
  uuid_drawn (some t) =
      Option.map (λ e. (record t { local_gen = some (uuid_of e).0 }, random_uuid (uuid_of e).1))
        t.local_gen

  unfoldable pub ruuid : Clock → Thread P.Engine → Option (Thread P.Engine × Answer Uuid)
  unfolding get_uuid_generator uuid_drawn
  ruuid c t = uuid_drawn (get_uuid_generator c t)

  -- The call leaves the engine in the thread.
  unfoldable pub urand_answered :
      Thread P.Engine → Option (P.Engine × ℕ) → Option (Thread P.Engine × Answer Uuid)
  urand_answered t none = none
  urand_answered t (some (e, n)) = some (record t { local_gen = some e }, random_number n)

  unfoldable pub call : Call → Clock → Thread P.Engine → Option (Thread P.Engine × Answer Uuid)
  unfolding urand_answered ruuid
  call (up_to n_max) c t = urand_answered t (urand_to P n_max c t.local_gen)
  call (between n_min n_max) c t = urand_answered t (urand_between P n_min n_max c t.local_gen)
  call any c t = urand_answered t (urand P c t.local_gen)
  call uuid c t = ruuid c t

  -- The answers of a sequence of calls.
  unfoldable pub run : List (Call × Clock) → Thread P.Engine → Option (List (Answer Uuid))
  run [] t = some []
  run ((k, c) ∷ ks) t = do (t', a) ← call k c t; answers ← run ks t'; some (a ∷ answers)
