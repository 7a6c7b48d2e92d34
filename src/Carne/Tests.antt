-- ===== src/Carne/Tests.antt =====
-- A family of three objects, and the theorem at it.
use mathlib.Core.Option
use moose_tools.Prelude.{
  Bool, true, ◌↔◌, some_lem, ℕ, zero, suc, ◌≡◌, refl, List, [], ◌∷◌, ◌+◌, ◌%◌, All, ◌==◌, ◌<◌,
  if◌then◌else◌, none, some, arith, u64_mod, ltb, ◌&&◌,
}
use moose_tools.Carne.{initial, Heap, changed, bump, increase_incarnation}
use moose_tools.Carne.Parentless.{
  Call, constructs, restores, increases, run, is_parented, any_parented, run-initial_parented,
}
use moose_tools.Carne.Threads.{Task, calling, returned, schedule}
use moose_tools.Carne.Owed.{IsWhole, owed, owed_all}
use moose_tools.Carne.Completion.{IsServed}
use moose_tools.Carne.Noticed.{schedule-changed}
use moose_tools.Carne.Chain.{occurrences, chain, counted, increase_incarnation-chain}

-- Object 1 has the parent 2, which has the parent 3.
abbrev family : Heap
family a =
    if a == 1
    then record { incarnation = 4; parent = some 2 }
    else if a == 2
    then record { incarnation = 5; parent = some 3 }
    else record { incarnation = 6; parent = none }

family-lt : (b : ℕ) → (family b).incarnation < u64_mod
family-lt b = ground arith

increase_incarnation-chain_example :
    increase_incarnation 2 family 1 ≡ Option.map (counted family) (chain 2 family 1)
increase_incarnation-chain_example = increase_incarnation-chain 2 family 1 family-lt

-- Two threads: one increases object 1, the other object 2, whose parent both reach.
abbrev threads : List Task
threads = calling 2 1 ∷ calling 1 2 ∷ []

threads-IsWhole : All (IsWhole family) threads
unfolding IsWhole chain
threads-IsWhole = ((1 ∷ 2 ∷ 3 ∷ [], refl), ((2 ∷ 3 ∷ [], refl), tt))

all_returned : (schedule (0 ∷ 1 ∷ 0 ∷ 1 ∷ 0 ∷ []) family threads).1 ≡ returned ∷ returned ∷ []
unfolding schedule bump
all_returned = refl

counted_twice : ((schedule (0 ∷ 1 ∷ 0 ∷ 1 ∷ 0 ∷ []) family threads).0 3).incarnation ≡ 8
unfolding schedule bump
counted_twice = refl

threads-IsServed : IsServed (0 ∷ 1 ∷ 0 ∷ 1 ∷ 0 ∷ []) threads
unfolding occurrences
threads-IsServed zero t e = rw (← some_lem (calling 2 1) t e) (omega arith)
threads-IsServed (suc zero) t e = rw (← some_lem (calling 1 2) t e) (omega arith)
threads-IsServed (suc (suc j)) t e = absurd cc

owed_twice : owed_all family 3 threads ≡ 2
unfolding owed_all owed occurrences chain
owed_twice = refl

schedule-changed_example :
    ((schedule (0 ∷ 1 ∷ 0 ∷ 1 ∷ 0 ∷ []) family threads).1 ≡ returned ∷ returned ∷ [])
    × (((schedule (0 ∷ 1 ∷ 0 ∷ 1 ∷ 0 ∷ []) family threads).0 3).incarnation
        ≡ (6 + owed_all family 3 threads) % u64_mod)
    × (changed ((schedule (0 ∷ 1 ∷ 0 ∷ 1 ∷ 0 ∷ []) family threads).0 3).incarnation 6
        ≡ (ltb 0 (owed_all family 3 threads) && ltb (6 + owed_all family 3 threads) u64_mod))
schedule-changed_example =
    schedule-changed (0 ∷ 1 ∷ 0 ∷ 1 ∷ 0 ∷ []) family threads 3 family-lt threads-IsWhole
      threads-IsServed (omega (arith, owed_twice))

-- Two objects; one of a class with a parent type is increased last.
abbrev calls : List Call
calls = constructs 1 ∷ restores 2 5 ∷ increases 0 3 ∷ increases 1 2 ∷ []

run-initial_parented_example :
    ((run (λ _. initial) calls ≡ none) ↔ (◌≡◌ {A = Bool} true true))
    × ((h : Heap) → run (λ _. initial) calls ≡ some h → (a : ℕ) → (h a).parent ≡ none)
unfolding any_parented is_parented
run-initial_parented_example = run-initial_parented calls
