-- ===== src/Carne/Threads.antt =====
-- Carne.hpp: threads that call `increase_incarnation` at the same time. `++m_incarnation` is atomic;
-- between two of them any other thread may run.
use moose_tools.Prelude.{ℕ, zero, suc, Option, none, some, List, [], ◌∷◌}
use moose_tools.Carne.{Heap, bump}

-- A thread: about to run `increase_incarnation` of an object whose class has so many parent types,
-- returned, or stopped by the assertion.
pub data Task : Type 0 where
  calling : ℕ → ℕ → Task
  returned terminated : Task

-- A thread runs up to the call on the parent, or to its end.
unfoldable pub continued : Heap → ℕ → ℕ → Option ℕ → Heap × Task
continued h depth a none = (h, terminated)
continued h depth a (some p) = (bump h a, calling depth p)

unfoldable pub task_step : Heap → Task → Heap × Task
unfolding continued
task_step h (calling zero a) = (bump h a, returned)
task_step h (calling (suc depth) a) = continued h depth a (h a).parent
task_step h returned = (h, returned)
task_step h terminated = (h, terminated)

-- The scheduler picks a thread by its number; one that is not there does nothing.
unfoldable pub system_step : ℕ → Heap → List Task → Heap × List Task
unfolding task_step
system_step i h [] = (h, [])
system_step zero h (t ∷ ts) = ((task_step h t).0, (task_step h t).1 ∷ ts)
system_step (suc i) h (t ∷ ts) = ((system_step i h ts).0, t ∷ (system_step i h ts).1)

unfoldable pub schedule : List ℕ → Heap → List Task → Heap × List Task
unfolding system_step
schedule [] h ts = (h, ts)
schedule (i ∷ is) h ts = schedule is (system_step i h ts).0 (system_step i h ts).1
