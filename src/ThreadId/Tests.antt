-- ===== src/ThreadId/Tests.antt =====
-- The theorems at concrete threads.
use moose_tools.Prelude.{◌+◌, ℕ, ◌≡◌, ◌^◌, refl, some, List, [], ◌∷◌, Bytes, codes}
use moose_tools.Endpoints.Plain.{plain, span, plus, some_run, number, value}
use moose_tools.Random.{Clock}
use moose_tools.Random.Calls.{Call, up_to, between, uuid, random_number, random_uuid, fresh, run}
use moose_tools.Random.Seeding.{draws, draw}
use moose_tools.Random.Plain.{counter}
use moose_tools.ThreadId.{text, faked_thread_id}
use moose_tools.ThreadId.FirstUse.{run-faked_thread_id}

abbrev no_hash : Bytes → ℕ
no_hash s = 2 ^ 40 + 5

-- The uuids are the engine's states.
abbrev uuid_of : ℕ → ℕ × ℕ
uuid_of e = (e + 1, e)

abbrev later : List (Call × Clock)
later = (uuid, record { ns = 7; tid = 3 }) ∷ (between 10 20, record { ns = 9; tid = 0 }) ∷ []

run-faked_thread_id_example :
    run counter uuid_of
      ((up_to 5, record { ns = 100; tid = faked_thread_id plain no_hash (text (codes "42")) })
        ∷ later)
      fresh
    ≡ some (random_number 4 ∷ random_uuid 17 ∷ random_number 17 ∷ [])
unfolding plus span some_run number value draws draw
run-faked_thread_id_example =
    run-faked_thread_id plain no_hash counter uuid_of (up_to 5) later 100 42 (codes "42") refl
