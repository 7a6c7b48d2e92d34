-- ===== src/Mutexed/Exclusion.antt =====
-- Mutexed.hpp: what a lock's life does to the incarnation.
use moose_tools.Prelude.{ℕ, ◌≡◌, Bool, true, false, Option, none, some, [], ◌∷◌, next64, arith}
use moose_tools.Mutexed.{
  Lock, Mutexed, locked, acquire_read_lock, acquire_write_lock, set_writing, upgrade, downgrade,
  moved, move_lock, destroyed, destroy, reads, writes, upgrades, downgrades, destroys, moves, step,
  run,
}

abbrev owning : Option Lock → Bool
owning none = false
owning (some l) = l.owns

-- A lock that lives and owns the mutex.
abbrev pub owns : Mutexed → ℕ → Bool
owns m a = owning (m.locks a)

-- On a free mutex, a write lock that is taken and destroyed counts once, and a read lock does not
-- count, unless it is upgraded; the mutex is free again.
run-lock_lives :
    (m : Mutexed) (a : ℕ)
    → m.held ≡ false
    → m.locks a ≡ none
    → ((run m (writes a ∷ destroys a ∷ [])).incarnation ≡ next64 m.incarnation)
      × ((run m (reads a ∷ destroys a ∷ [])).incarnation ≡ m.incarnation)
      × ((run m (reads a ∷ upgrades a ∷ destroys a ∷ [])).incarnation ≡ next64 m.incarnation)
      × ((run m (writes a ∷ downgrades a ∷ destroys a ∷ [])).incarnation ≡ m.incarnation)
      × ((run m (writes a ∷ destroys a ∷ [])).held ≡ false)
      × ((run m (reads a ∷ destroys a ∷ [])).held ≡ false)
unfolding run step acquire_read_lock acquire_write_lock upgrade downgrade destroy locked set_writing
    destroyed
run-lock_lives m a h e = ground arith

-- A write lock that is moved counts twice: the lock that was moved from still is a writing one, and
-- its destructor counts although the other lock owns the mutex.
pub run-moved_lock :
    (m : Mutexed) (a b : ℕ)
    → m.locks a ≡ some (record { owns = true; writing = true })
    → m.locks b ≡ none
    → ((run m (moves a b ∷ destroys a ∷ [])).incarnation ≡ next64 m.incarnation)
      × (owns (run m (moves a b ∷ destroys a ∷ [])) b ≡ true)
      × ((run m (moves a b ∷ destroys a ∷ destroys b ∷ [])).incarnation
          ≡ next64 (next64 m.incarnation))
unfolding run step move_lock destroy moved destroyed
run-moved_lock m a b e f = ground arith
