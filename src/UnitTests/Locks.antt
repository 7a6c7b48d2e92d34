-- ===== src/UnitTests/Locks.antt =====
-- test/TestMutexed.cpp: the cases on a new object; the lock of the first one is commented out.
use moose_tools.Prelude.{◌+◌, ◌≡◌, refl, true, [], ◌∷◌, ◌==◌}
use moose_tools.Errors.{ok}
use moose_tools.Mutexed.{create, acquire_write_lock, destroy, locked, destroyed}
use moose_tools.UnitTests.{Checks, passes, all_hold}

-- The case `compile_read_lock`.
unfoldable compile_read_lock : Checks
compile_read_lock =
    let c = create in
    let inc1 = c.incarnation in let inc2 = c.incarnation in ok ((inc1 == inc2) ∷ [])

-- The case `compile_write_lock`, with the lock `wl` as variable 0.
unfoldable compile_write_lock : Checks
compile_write_lock =
    let c = create in
    let inc1 = c.incarnation in
    let c' = destroy (acquire_write_lock c 0) 0 in
    let inc2 = c'.incarnation in ok ((inc2 == inc1 + 1) ∷ [])

compile_read_lock-passes : passes compile_read_lock ≡ true
unfolding passes all_hold compile_read_lock create
compile_read_lock-passes = refl

compile_write_lock-passes : passes compile_write_lock ≡ true
unfolding passes all_hold compile_write_lock create acquire_write_lock destroy locked destroyed
compile_write_lock-passes = refl
