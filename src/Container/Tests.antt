-- ===== src/Container/Tests.antt =====
-- Runs of the container on lists, and the theorems at concrete inputs.
use moose_tools.Prelude.{
  ℕ, ◌/◌, ◌≡◌, refl, Bool, true, false, none, some, List, [], ◌∷◌, arith, ◌↔◌, ◌⊎◌, ◌≤◌, ◌==◌,
  if◌then◌else◌,
}
use moose_tools.Errors.{ok}
use moose_tools.Carne.{changed}
use moose_tools.Container.Ids.{count, remove_id}
use moose_tools.Container.Index.{MultiIndex, list_index}
use moose_tools.Container.{Container, equals, has, insert, replace, remove, size, all_known}
use moose_tools.Container.View.{seq}
use moose_tools.Container.Refinement.{
  Call, inserts, replaces, removes, step, run, specified_run, view, IsValid, run-specified,
}
use mathlib.Core.List.Perm
use moose_tools.Container.Abstract.{run-equals}
use moose_tools.Container.IdSet.{list_set}
use moose_tools.Container.Contents.{ids_in_container, equals-ids_in_container}
use moose_tools.Container.Incarnation.{run-changed}
use moose_tools.Container.Iterator.{begin}
use moose_tools.Container.Iterator.Purge.{kept, removed, purge, purge-begin}
use moose_tools.Container.Iterator.Loop.{visit, visit-begin}

-- An object whose id is the number without its last digit.
abbrev tagged : ℕ → ℕ
tagged n = n / 10

abbrev index : MultiIndex tagged
index = list_index tagged

abbrev three : Container index
three = record { objects = 11 ∷ 25 ∷ 38 ∷ []; incarnation = 3 }

abbrev same_ids : Container index
same_ids = record { objects = 30 ∷ 10 ∷ 20 ∷ []; incarnation = 9 }

abbrev history : List (Call ℕ)
history =
    inserts none
    ∷ inserts (some 22)
    ∷ replaces (some 19)
    ∷ removes 2
    ∷ removes 7
    ∷ inserts (some 44)
    ∷ []

three-IsValid : IsValid index three
unfolding count
three-IsValid = (refl, (refl, (refl, tt)))

same_ids-IsValid : IsValid index same_ids
unfolding count
same_ids-IsValid = (refl, (refl, (refl, tt)))

replies :
    (run index three history).1
    ≡ none ∷ some false ∷ some true ∷ some true ∷ some false ∷ some true ∷ []
unfolding run step insert replace remove count remove_id
replies = refl

run-specified_example :
    (view index (run index three history).0 ≡ (specified_run tagged (view index three) history).0)
    × ((run index three history).1 ≡ (specified_run tagged (view index three) history).1)
run-specified_example = run-specified index three history three-IsValid

equals_in_any_order : equals index three same_ids ≡ true
unfolding equals has size all_known count
equals_in_any_order = refl

-- The same calls on both.
run-equals_example :
    (equals index (run index three history).0 (run index same_ids history).0 ≡ true)
    × ((run index three history).1 ≡ (run index same_ids history).1)
run-equals_example =
    run-equals index three same_ids history three-IsValid same_ids-IsValid equals_in_any_order

run-changed_example :
    (3 ≤ (run index three history).0.incarnation)
    × ((changed (run index three history).0.incarnation 3 ≡ true)
        ⊎ (seq index (run index three history).0 ≡ 11 ∷ 25 ∷ 38 ∷ []))
run-changed_example = run-changed index three history three-IsValid (omega arith)

-- Every object but 25 is to go.
abbrev other : ℕ → Bool
other o = if o == 25 then false else true

purge-begin_example :
    (c' : Container index) × (purge index 5 other 4 three (begin index 5 three) ≡ some c')
    × (seq index c' ≡ 25 ∷ [])
    × (c'.incarnation ≡ 5)
unfolding kept removed
purge-begin_example = purge-begin index 5 other three (omega arith) (omega arith)

visit-begin_example : visit index 5 4 three (begin index 5 three) ≡ some (ok (11 ∷ 25 ∷ 38 ∷ []))
visit-begin_example = visit-begin index 5 three (omega arith)

equals-ids_in_container_example :
    ((equals index three same_ids ≡ true) ↔ ((k : ℕ) → has index three k ≡ has index same_ids k))
    × ((equals index three same_ids ≡ true) ↔ (
        list_set.elements (ids_in_container index list_set three)
        ≡ list_set.elements (ids_in_container index list_set same_ids)))
equals-ids_in_container_example =
    equals-ids_in_container index list_set three same_ids three-IsValid same_ids-IsValid
