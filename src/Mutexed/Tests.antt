-- ===== src/Mutexed/Tests.antt =====
-- The theorems at concrete locks.
use moose_tools.Prelude.{ℕ, ◌≡◌, ◌↔◌, arith, refl, true, none, some, [], ◌∷◌, ◌==◌, if◌then◌else◌}
use moose_tools.Mutexed.{
  Mutexed, create, reads, writes, downgrades, destroys, moves, step, run, acquire_read_lock,
  acquire_write_lock, destroy, locked, destroyed, downgrade, set_writing,
}
use moose_tools.Mutexed.Counting.{ended, ended_all, run-unchanged}
use moose_tools.Mutexed.Exclusion.{owns, run-moved_lock}

abbrev written_object : Mutexed
written_object = record {
  held = true;
  incarnation = 1;
  locks = λ a. if a == 1 then some (record { owns = true; writing = true }) else none;
}

-- The incarnation is the same after a read lock and a write lock that was downgraded.
run-unchanged_example :
    ((run
        (run create (writes 1 ∷ destroys 1 ∷ []))
        (reads 1 ∷ destroys 1 ∷ writes 2 ∷ downgrades 2 ∷ destroys 2 ∷ [])).incarnation
      ≡ 2)
    ↔ (◌≡◌ {A = ℕ} 0 0)
unfolding create run step acquire_read_lock acquire_write_lock downgrade set_writing destroy locked
    destroyed ended_all ended
run-unchanged_example =
    run-unchanged (writes 1 ∷ destroys 1 ∷ [])
      (reads 1 ∷ destroys 1 ∷ writes 2 ∷ downgrades 2 ∷ destroys 2 ∷ []) (omega arith)

run-moved_lock_example :
    ((run written_object (moves 1 2 ∷ destroys 1 ∷ [])).incarnation ≡ 2)
    × (owns (run written_object (moves 1 2 ∷ destroys 1 ∷ [])) 2 ≡ true)
    × ((run written_object (moves 1 2 ∷ destroys 1 ∷ destroys 2 ∷ [])).incarnation ≡ 3)
run-moved_lock_example = run-moved_lock written_object 1 2 refl refl
