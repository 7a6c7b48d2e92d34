-- ===== src/Pimpled/Tests.antt =====
-- The theorem at a type whose base lies at the start.
use moose_tools.Prelude.{◌≡◌, refl, false, some}
use moose_tools.Pimpled.{done, Heap}
use moose_tools.Pimpled.Lifetime.{lifetime, lifetime_lem, fate}

abbrev empty_heap : Heap
empty_heap a = false

lifetime_lem_example : lifetime (record { pimplee = some 0 }) empty_heap 4096 3 ≡ done empty_heap tt
unfolding fate
lifetime_lem_example = lifetime_lem (record { pimplee = some 0 }) empty_heap 4096 3 refl
