-- ===== src/Carne/Noticed.antt =====
-- Carne.hpp: what `changed` tells a client of objects that several threads increase.
use moose_tools.Prelude.{
  ℕ, zero, suc, ◌+◌, ◌<◌, ◌%◌, ◌≡◌, ◌&&◌, Option, none, some, List, [], ◌∷◌, map, ltb, u64_mod,
  arith, All,
}
use moose_tools.Carne.{Heap, bump, changed}
use moose_tools.Carne.Threads.{
  Task, calling, returned, terminated, continued, task_step, system_step, schedule,
}
use moose_tools.Carne.Owed.{IsWhole, owed_all}
use moose_tools.Carne.Completion.{IsServed, schedule-returned}

-- Every counter is a 64-bit number.
abbrev pub IsWord : Heap → Type 0
IsWord h = (b : ℕ) → (h b).incarnation < u64_mod

bump-IsWord : (h : Heap) (a : ℕ) → IsWord h → IsWord (bump h a)
unfolding bump
bump-IsWord h a w b = ground (arith, w b)

continued-IsWord :
    (h : Heap) (depth a : ℕ) (parent : Option ℕ) → IsWord h → IsWord (continued h depth a parent).0
unfolding continued
continued-IsWord h depth a none w = w
continued-IsWord h depth a (some p) w = bump-IsWord h a w

task_step-IsWord : (h : Heap) (t : Task) → IsWord h → IsWord (task_step h t).0
unfolding task_step
task_step-IsWord h (calling zero a) w = bump-IsWord h a w
task_step-IsWord h (calling (suc depth) a) w = continued-IsWord h depth a (h a).parent w
task_step-IsWord h returned w = w
task_step-IsWord h terminated w = w

system_step-IsWord : (i : ℕ) (h : Heap) (ts : List Task) → IsWord h → IsWord (system_step i h ts).0
unfolding system_step
system_step-IsWord i h [] w = w
system_step-IsWord zero h (t ∷ ts) w = task_step-IsWord h t w
system_step-IsWord (suc i) h (t ∷ ts) w = system_step-IsWord i h ts w

schedule-IsWord : (is : List ℕ) (h : Heap) (ts : List Task) → IsWord h → IsWord (schedule is h ts).0
unfolding schedule
schedule-IsWord [] h ts w = w
schedule-IsWord (i ∷ is) h ts w =
    schedule-IsWord is (system_step i h ts).0 (system_step i h ts).1 (system_step-IsWord i h ts w)

-- Threads that run `increase_incarnation` at the same time, on counters that are 64-bit numbers and
-- where no parent on the way is null: once each has had as many turns as its class has parent types, and one more, all have returned, and an
-- object that stands fewer than 2 ^ 64 times on their ways has been counted so often, modulo 2 ^ 64. A
-- client that knows its counter from before is told of a change exactly if the object stands there, and
-- the counter has not run over.
pub schedule-changed :
    (is : List ℕ) (h : Heap) (ts : List Task) (b : ℕ)
    → IsWord h
    → All (IsWhole h) ts
    → IsServed is ts
    → owed_all h b ts < u64_mod
    → ((schedule is h ts).1 ≡ map (λ _. returned) ts)
      × (((schedule is h ts).0 b).incarnation ≡ ((h b).incarnation + owed_all h b ts) % u64_mod)
      × (changed ((schedule is h ts).0 b).incarnation (h b).incarnation
          ≡ (ltb 0 (owed_all h b ts) && ltb ((h b).incarnation + owed_all h b ts) u64_mod))
unfolding changed
schedule-changed is h ts b word whole served few =
    let (done, counted) = schedule-returned is h ts b whole served in
    let before = word b in
    let after = schedule-IsWord is h ts word b in
    (done, omega (arith, counted, after), ground (arith, counted, before, after))
