-- ===== src/Mutexed.antt =====
-- Mutexed.hpp: an object with a mutex and an incarnation, and the scoped locks on it. The locks are
-- known by numbers, as variables of the program; an acquisition of a mutex that is held waits, and
-- is no step.
pub mod Exclusion
pub mod Counting
mod Tests
use moose_tools.Prelude.{
  ℕ, Bool, true, false, Option, none, some, List, [], ◌∷◌, ◌==◌, if◌then◌else◌, next64,
}

-- `scoped_lock`: whether its `unique_lock` owns the mutex, and `m_writing`.
pub record Lock : Type 0 where
  pub owns : Bool
  pub writing : Bool

-- The mutex, `m_incarnation`, and the locks that live.
pub record Mutexed : Type 0 where
  pub held : Bool
  pub incarnation : ℕ
  pub locks : ℕ → Option Lock

abbrev pub assign : (ℕ → Option Lock) → ℕ → Option Lock → ℕ → Option Lock
assign locks a o b = if a == b then o else locks b

unfoldable pub create : Mutexed
create = record { held = false; incarnation = 1; locks = λ _. none }

-- The constructor of `scoped_lock`, for a new variable.
unfoldable pub locked : Mutexed → ℕ → Bool → Option Lock → Mutexed
locked m a writing (some _) = m
locked m a writing none = if m.held then m else record m {
  held = true;
  locks = assign m.locks a (some (record { owns = true; writing = writing }));
}

pub acquire_read_lock : Mutexed → ℕ → Mutexed
unfolding locked
acquire_read_lock m a = locked m a false (m.locks a)

unfoldable pub acquire_write_lock : Mutexed → ℕ → Mutexed
unfolding locked
acquire_write_lock m a = locked m a true (m.locks a)

set_writing : Mutexed → ℕ → Bool → Option Lock → Mutexed
set_writing m a writing none = m
set_writing m a writing (some l) = record m {
  locks = assign m.locks a (some (record l { writing = writing }));
}

pub upgrade : Mutexed → ℕ → Mutexed
unfolding set_writing
upgrade m a = set_writing m a true (m.locks a)

pub downgrade : Mutexed → ℕ → Mutexed
unfolding set_writing
downgrade m a = set_writing m a false (m.locks a)

moved : Mutexed → ℕ → ℕ → Option Lock → Option Lock → Mutexed
moved m a b (some l) none = record m {
  locks = assign (assign m.locks a (some (record l { owns = false }))) b (some l);
}
moved m a b _ _ = m

-- The defaulted move constructor: `unique_lock` gives up the mutex, `m_writing` is copied.
pub move_lock : Mutexed → ℕ → ℕ → Mutexed
unfolding moved
move_lock m a b = moved m a b (m.locks a) (m.locks b)

unfoldable pub destroyed : Mutexed → ℕ → Option Lock → Mutexed
destroyed m a none = m
destroyed m a (some l) = record {
  held = if l.owns then false else m.held;
  incarnation = if l.writing then next64 m.incarnation else m.incarnation;
  locks = assign m.locks a none;
}

-- `~scoped_lock`: the incarnation first, then the mutex.
unfoldable pub destroy : Mutexed → ℕ → Mutexed
unfolding destroyed
destroy m a = destroyed m a (m.locks a)

pub data Call : Type 0 where
  reads writes upgrades downgrades destroys : ℕ → Call
  moves : ℕ → ℕ → Call

pub step : Mutexed → Call → Mutexed
step m (reads a) = acquire_read_lock m a
step m (writes a) = acquire_write_lock m a
step m (upgrades a) = upgrade m a
step m (downgrades a) = downgrade m a
step m (destroys a) = destroy m a
step m (moves a b) = move_lock m a b

pub run : Mutexed → List Call → Mutexed
unfolding step
run m [] = m
run m (c ∷ cs) = run (step m c) cs
