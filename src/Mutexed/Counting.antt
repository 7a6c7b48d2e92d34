-- ===== src/Mutexed/Counting.antt =====
-- Mutexed.hpp: what the incarnation tells a client.
use moose_tools.Prelude.{
  ℕ, ◌≡◌, ◌↔◌, ◌<◌, ◌≤◌, ◌+◌, ◌%◌, refl, Bool, true, false, Option, none, some, List, [], ◌∷◌,
  length, u64_mod, if◌then◌else◌, arith,
}
use moose_tools.Mutexed.{
  Lock, Mutexed, create, locked, acquire_read_lock, acquire_write_lock, set_writing, upgrade,
  downgrade, moved, move_lock, destroyed, destroy, Call, reads, writes, upgrades, downgrades,
  destroys, moves, step, run,
}

-- The destructor of a writing lock counts once.
ends : Option Lock → ℕ
ends none = 0
ends (some l) = if l.writing then 1 else 0

-- Whether a call is the end of a writing lock.
unfoldable pub ended : Mutexed → Call → ℕ
unfolding ends
ended m (destroys a) = ends (m.locks a)
ended m _ = 0

-- The writing locks that end in a run.
unfoldable pub ended_all : Mutexed → List Call → ℕ
ended_all m [] = 0
ended_all m (c ∷ cs) = ended m c + ended_all (step m c) cs

ends-small : (o : Option Lock) → ends o < 2
unfolding ends
ends-small none = omega arith
ends-small (some l) = ground arith

ended-small : (m : Mutexed) (c : Call) → ended m c < 2
unfolding ended
ended-small m (destroys a) = ends-small (m.locks a)
ended-small m (reads a) = omega arith
ended-small m (writes a) = omega arith
ended-small m (upgrades a) = omega arith
ended-small m (downgrades a) = omega arith
ended-small m (moves a b) = omega arith

locked-incarnation :
    (m : Mutexed) (a : ℕ) (w : Bool) (o : Option Lock)
    → (locked m a w o).incarnation ≡ m.incarnation
unfolding locked
locked-incarnation m a w (some l) = refl
locked-incarnation m a w none = ground arith

set_writing-incarnation :
    (m : Mutexed) (a : ℕ) (w : Bool) (o : Option Lock)
    → (set_writing m a w o).incarnation ≡ m.incarnation
unfolding set_writing
set_writing-incarnation m a w none = refl
set_writing-incarnation m a w (some l) = refl

moved-incarnation :
    (m : Mutexed) (a b : ℕ) (o p : Option Lock) → (moved m a b o p).incarnation ≡ m.incarnation
unfolding moved
moved-incarnation m a b none p = refl
moved-incarnation m a b (some l) none = refl
moved-incarnation m a b (some l) (some k) = refl

destroyed-incarnation :
    (m : Mutexed) (a : ℕ) (o : Option Lock)
    → m.incarnation < u64_mod
    → (destroyed m a o).incarnation ≡ (m.incarnation + ends o) % u64_mod
unfolding destroyed ends
destroyed-incarnation m a none h = omega arith
destroyed-incarnation m a (some l) h = ground arith

unchanged : (k n : ℕ) → n < u64_mod → k ≡ n → k ≡ (n + 0) % u64_mod
unchanged k n h e = omega arith

step-incarnation :
    (m : Mutexed) (c : Call)
    → m.incarnation < u64_mod
    → (step m c).incarnation ≡ (m.incarnation + ended m c) % u64_mod
unfolding step ended acquire_read_lock acquire_write_lock upgrade downgrade move_lock destroy
step-incarnation m (destroys a) h = destroyed-incarnation m a (m.locks a) h
step-incarnation m (reads a) h =
    unchanged _ m.incarnation h (locked-incarnation m a false (m.locks a))
step-incarnation m (writes a) h =
    unchanged _ m.incarnation h (locked-incarnation m a true (m.locks a))
step-incarnation m (upgrades a) h =
    unchanged _ m.incarnation h (set_writing-incarnation m a true (m.locks a))
step-incarnation m (downgrades a) h =
    unchanged _ m.incarnation h (set_writing-incarnation m a false (m.locks a))
step-incarnation m (moves a b) h =
    unchanged _ m.incarnation h (moved-incarnation m a b (m.locks a) (m.locks b))

run-incarnation :
    (m : Mutexed) (cs : List Call)
    → m.incarnation < u64_mod
    → (run m cs).incarnation ≡ (m.incarnation + ended_all m cs) % u64_mod
unfolding run ended_all
run-incarnation m [] h = omega arith
run-incarnation m (c ∷ cs) h =
    let one = step-incarnation m c h in
    let small : (step m c).incarnation < u64_mod = omega (arith, one) in
    omega (arith, one, run-incarnation (step m c) cs small)

ended_all-bound : (m : Mutexed) (cs : List Call) → ended_all m cs ≤ length cs
unfolding ended_all
ended_all-bound m [] = omega arith
ended_all-bound m (c ∷ cs) = omega (arith, ended-small m c, ended_all-bound (step m c) cs)

-- After any calls on a new object, a client looks at the incarnation, and again after fewer than
-- 2 ^ 64 calls more: it is the same exactly if no writing lock has been destroyed in between.
pub run-unchanged :
    (before since : List Call)
    → length since < u64_mod
    → let m = run create before in
      ((run m since).incarnation ≡ m.incarnation) ↔ (ended_all m since ≡ 0)
unfolding create
run-unchanged before since few =
    let m = run create before in
    let start = run-incarnation create before (omega arith) in
    let small : m.incarnation < u64_mod = omega (arith, start) in
    let all = run-incarnation m since small in
    let bound = ended_all-bound m since in
    (λ same. omega (arith, all, bound), λ none_ended. omega (arith, all))
