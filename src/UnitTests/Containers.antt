-- ===== src/UnitTests/Containers.antt =====
-- test/TestIdTagged.cpp: the cases on the container, for any index that meets the requirements. The
-- objects are those that the case makes. The calls of begin and end of which a case only checks that
-- they do not throw are left out; in the model they cannot.
pub mod Insertions
mod Passing
use moose_tools.Prelude.{
  ℕ, suc, ◌+◌, Bool, true, false, not, ◌||◌, none, some, List, [], ◌∷◌, ◌==◌, ◌++◌, if◌then◌else◌,
  length,
}
use moose_tools.Errors.{Kind, Result, ok, thrown, ◌>>=◌}
use moose_tools.Container.Index.{MultiIndex}
use moose_tools.Container.{Container, create, insert, remove, size, at}
use moose_tools.Container.Iterator.{begin, increment, dereference}
use moose_tools.Container.Iterator.Loop.{visit}
use moose_tools.UnitTests.{Checks, loop_of}

-- `BOOST_CHECK_THROW` with `internal_error` and what derives from it.
unfoldable throws_internal_error {ℓ} : {A : Type ℓ} → Result A → Bool
throws_internal_error (ok a) = false
throws_internal_error (thrown e) = elim e.kind [
  | Kind.internal_error ↦ true
  | Kind.ui_error ↦ true
  | _ ↦ false
]

module _ {T : Type 0} (id : T → ℕ) where
  -- What the last two cases require not to be.
  unfoldable pub any_same : T → T → T → Bool
  any_same o1 o2 o3 = id o1 == id o2 || id o1 == id o3 || id o2 == id o3

  -- The checks of the body of a loop, which all compare with a `last_id` of 0.
  unfoldable other_ids : List T → List Bool
  other_ids [] = []
  other_ids (p ∷ ps) = not (id p == 0) ∷ other_ids ps

module _ {T : Type 0} {id : T → ℕ} (M : MultiIndex id) where
  -- The case `basic_access`.
  unfoldable pub basic_access : T → T → Checks
  unfolding throws_internal_error
  basic_access o1 o2 = do
    let c0 = create M
    (c1, inserted1) ← insert M c0 (some o1)
    (c2, again1) ← insert M c1 (some o1)
    (c3, inserted2) ← insert M c2 (some o2)
    (c4, again2) ← insert M c3 (some o2)
    first ← at M c4 0
    second ← at M c4 1
    let (c5, removed) = remove M c4 (id o2)
    left ← at M c5 0
    ok (
        (size M c0 == 0)
        ∷ throws_internal_error (insert M c0 none)
        ∷ inserted1
        ∷ not again1
        ∷ (size M c2 == 1)
        ∷ inserted2
        ∷ not again2
        ∷ (size M c4 == 2)
        ∷ not (id first == id second)
        ∷ removed
        ∷ (size M c5 == 1)
        ∷ not (id left == 0)
        ∷ [])

  -- The three insertions of the next two cases, and what their checks find.
  unfoldable three_inserted : T → T → T → Result (Container M × List Bool)
  three_inserted o1 o2 o3 = do
    (c1, b1) ← insert M (create M) (some o1)
    (c2, b2) ← insert M c1 (some o2)
    (c3, b3) ← insert M c2 (some o3)
    ok (c3, b1 ∷ b2 ∷ b3 ∷ [])

  module _ (self : ℕ) where
    -- The case `iterator_access`.
    unfoldable pub iterator_access : T → T → T → Checks
    unfolding three_inserted
    iterator_access o1 o2 o3 = if any_same id o1 o2 o3 then ok (false ∷ []) else do
      (c, inserted) ← three_inserted o1 o2 o3
      let start = begin M self c
      test1 ← dereference M self c start
      first ← dereference M self c start
      second ← dereference M self c (increment start)
      third ← dereference M self c (increment (increment start))
      ok (
          inserted
          ++ (id first == id o1 || id first == id o2 || id first == id o3)
            ∷ not (id first == id second)
            ∷ not (id first == id third)
            ∷ not (id second == id third)
            ∷ [])

    -- A range-based for loop, with its rounds; one more than the size is enough.
    unfoldable shown : Container M → Result (List T)
    shown c = loop_of (visit M self (suc (size M c)) c (begin M self c))

    -- The case `range_based_for`; `cnt` is set back before the last loop only.
    unfoldable pub range_based_for : T → T → T → Checks
    unfolding three_inserted shown other_ids
    range_based_for o1 o2 o3 = if any_same id o1 o2 o3 then ok (false ∷ []) else do
      none_shown ← shown (create M)
      (c, inserted) ← three_inserted o1 o2 o3
      ps ← shown c
      qs ← shown c
      ok (
          (length none_shown == 0) ∷ inserted
          ++ other_ids id ps
          ++ (length none_shown + length ps == 3) ∷ other_ids id qs
          ++ (length qs == 3) ∷ [])
