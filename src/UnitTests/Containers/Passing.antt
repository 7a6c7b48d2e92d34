-- ===== src/UnitTests/Containers/Passing.antt =====
-- test/TestIdTagged.cpp: for which objects the cases on the container pass.
use moose_tools.Prelude.{
  ℕ, ◌<◌, ◌≡◌, refl, ap, ◌∙◌, true, false, not, ◌&&◌, ◌||◌, some, List, [], ◌∷◌, ◌==◌, arith, ltb,
  length, get_elem?, Bool-cases, inl, inr, u64_mod,
}
use moose_tools.Errors.{ok}
use moose_tools.Container.Index.{MultiIndex}
use moose_tools.Container.Ids.{ids, count, Distinct, remove_id}
use moose_tools.Container.{Container, create, insert, remove, null_pointer}
use moose_tools.Container.View.{seq, seq-create, size_seq, remove_lem}
use moose_tools.Container.Refinement.{null_insert}
use moose_tools.Container.Iterator.{begin, advance, dereference}
use moose_tools.Container.Iterator.Loop.{visit-begin, start, next_idx, read}
use moose_tools.UnitTests.{passes, all_hold, loop_of}
use moose_tools.UnitTests.Containers.Insertions.{new_inserted, known_inserted, looked_up, beyond}
use moose_tools.UnitTests.Containers.{
  other_ids, basic_access, three_inserted, iterator_access, shown, range_based_for, any_same,
}

module _ {T : Type 0} {id : T → ℕ} (M : MultiIndex id) where
  remaining : (o1 o2 : T) → id o1 == id o2 ≡ false → remove_id id (id o2) (o1 ∷ o2 ∷ []) ≡ o1 ∷ []
  unfolding remove_id
  remaining o1 o2 d = ground arith

  ids-Distinct : (o1 o2 : T) → id o1 == id o2 ≡ false → Distinct (ids id (o1 ∷ o2 ∷ []))
  unfolding count
  ids-Distinct o1 o2 d = ground arith

  last_held : (o1 o2 : T) → ltb 0 (count (id o2) (ids id (o1 ∷ o2 ∷ []))) ≡ true
  unfolding count
  last_held o1 o2 = ground arith

  module _ (o1 o2 : T) (c1 c2 c3 c4 : Container M) where
    basic_access-same :
        insert M (create M) (some o1) ≡ ok (c1, true)
        → insert M c1 (some o1) ≡ ok (c2, false)
        → insert M c2 (some o2) ≡ ok (c3, false)
        → insert M c3 (some o2) ≡ ok (c4, false)
        → seq M c4 ≡ o1 ∷ []
        → passes (basic_access M o1 o2) ≡ false
    unfolding basic_access
    basic_access-same e1 e2 e3 e4 s4 =
        rw
          (
            basic_access,
            e1,
            e2,
            e3,
            e4,
            looked_up M c4 (o1 ∷ []) 0 o1 s4 refl,
            beyond M c4 (o1 ∷ []) 1 s4 refl,
          )
          (unfold passes in refl)

    basic_access-other :
        insert M (create M) (some o1) ≡ ok (c1, true)
        → insert M c1 (some o1) ≡ ok (c2, false)
        → insert M c2 (some o2) ≡ ok (c3, true)
        → insert M c3 (some o2) ≡ ok (c4, false)
        → seq M c2 ≡ o1 ∷ []
        → seq M c4 ≡ o1 ∷ o2 ∷ []
        → id o1 == id o2 ≡ false
        → passes (basic_access M o1 o2) ≡ not (id o1 == 0)
    unfolding basic_access
    basic_access-other e1 e2 e3 e4 s2 s4 other =
        let distinct : Distinct (ids id (seq M c4)) = rw s4 (ids-Distinct o1 o2 other) in
        let (b5, s5, _) = remove_lem M c4 (id o2) distinct in
        let s5' : seq M (remove M c4 (id o2)).0 ≡ o1 ∷ [] = s5 ∙ rw s4 (remaining o1 o2 other) in
        rw
          (
            basic_access,
            e1,
            e2,
            e3,
            e4,
            looked_up M c4 (o1 ∷ o2 ∷ []) 0 o1 s4 refl,
            looked_up M c4 (o1 ∷ o2 ∷ []) 1 o2 s4 refl,
            looked_up M (remove M c4 (id o2)).0 (o1 ∷ []) 0 o1 s5' refl,
            size_seq M (create M),
            seq-create M,
            size_seq M c2,
            s2,
            size_seq M c4,
            s4,
            size_seq M (remove M c4 (id o2)).0,
            s5',
            b5,
            null_insert M (create M),
            other,
            s4,
            last_held o1 o2,
          )
          (unfold passes all_hold null_pointer in ground arith)

  -- The case `basic_access` passes exactly for two objects with different ids of which the first is
  -- not 0.
  passes-basic_access :
      (o1 o2 : T) → passes (basic_access M o1 o2) ≡ (not (id o1 == id o2) && not (id o1 == 0))
  unfolding count
  passes-basic_access o1 o2 =
      let (c1, e1, s1) = new_inserted M (create M) o1 [] (seq-create M) refl in
      let (c2, e2, s2) = known_inserted M c1 o1 (o1 ∷ []) s1 (ground arith) in
      elim (Bool-cases (id o1 == id o2)) [
        | inl same ↦
            let (c3, e3, s3) = known_inserted M c2 o2 (o1 ∷ []) s2 (ground arith) in
            let (c4, e4, s4) = known_inserted M c3 o2 (o1 ∷ []) s3 (ground arith) in
            basic_access-same o1 o2 c1 c2 c3 c4 e1 e2 e3 e4 s4 ∙ rw same refl
        | inr other ↦
            let (c3, e3, s3) = new_inserted M c2 o2 (o1 ∷ []) s2 (ground arith) in
            let (c4, e4, s4) = known_inserted M c3 o2 (o1 ∷ o2 ∷ []) s3 (ground arith) in
            basic_access-other o1 o2 c1 c2 c3 c4 e1 e2 e3 e4 s2 s4 other ∙ rw other refl
      ]

  three_count2 :
      (o1 o2 o3 : T) → any_same id o1 o2 o3 ≡ false → count (id o2) (ids id (o1 ∷ [])) ≡ 0
  unfolding count any_same
  three_count2 o1 o2 o3 d = ground arith

  three_count3 :
      (o1 o2 o3 : T) → any_same id o1 o2 o3 ≡ false → count (id o3) (ids id (o1 ∷ o2 ∷ [])) ≡ 0
  unfolding count any_same
  three_count3 o1 o2 o3 d = ground arith

  three_steps :
      (o1 o2 o3 : T) (c1 c2 c3 : Container M)
      → insert M (create M) (some o1) ≡ ok (c1, true)
      → insert M c1 (some o2) ≡ ok (c2, true)
      → insert M c2 (some o3) ≡ ok (c3, true)
      → three_inserted M o1 o2 o3 ≡ ok (c3, true ∷ true ∷ true ∷ [])
  unfolding three_inserted
  three_steps o1 o2 o3 c1 c2 c3 e1 e2 e3 = rw (three_inserted, e1, e2, e3) refl

  three_inserted_lem :
      (o1 o2 o3 : T)
      → any_same id o1 o2 o3 ≡ false
      → (c : Container M) × (three_inserted M o1 o2 o3 ≡ ok (c, true ∷ true ∷ true ∷ []))
        × (seq M c ≡ o1 ∷ o2 ∷ o3 ∷ [])
  three_inserted_lem o1 o2 o3 d =
      let (c1, e1, s1) = new_inserted M (create M) o1 [] (seq-create M) (unfold count in refl) in
      let (c2, e2, s2) = new_inserted M c1 o2 (o1 ∷ []) s1 (three_count2 o1 o2 o3 d) in
      let (c3, e3, s3) = new_inserted M c2 o3 (o1 ∷ o2 ∷ []) s2 (three_count3 o1 o2 o3 d) in
      (c3, three_steps o1 o2 o3 c1 c2 c3 e1 e2 e3, s3)

  module _ (self : ℕ) where
    dereference_at :
        (c : Container M) (os : List T) (i : ℕ) (o : T)
        → seq M c ≡ os
        → i < u64_mod
        → get_elem? os i ≡ some o
        → dereference M self c (advance (begin M self c) i) ≡ ok o
    dereference_at c os i o s fits g = read M self c i o fits (ap (λ z. get_elem? z i) s ∙ g)

    iterator_access-three :
        (o1 o2 o3 : T) (c : Container M)
        → three_inserted M o1 o2 o3 ≡ ok (c, true ∷ true ∷ true ∷ [])
        → seq M c ≡ o1 ∷ o2 ∷ o3 ∷ []
        → any_same id o1 o2 o3 ≡ false
        → passes (iterator_access M self o1 o2 o3) ≡ true
    unfolding iterator_access
    iterator_access-three o1 o2 o3 c e s d =
        let os : List T = o1 ∷ o2 ∷ o3 ∷ [] in
        rw
          (
            iterator_access,
            d,
            e,
            ← start M self c,
            next_idx M self c 0,
            next_idx M self c 1,
            dereference_at c os 0 o1 s (omega arith) refl,
            dereference_at c os 1 o2 s (omega arith) refl,
            dereference_at c os 2 o3 s (omega arith) refl,
          )
          (unfold passes all_hold any_same in ground arith)

    -- The case `iterator_access` passes exactly for three objects with different ids.
    passes-iterator_access :
        (o1 o2 o3 : T) → passes (iterator_access M self o1 o2 o3) ≡ not (any_same id o1 o2 o3)
    passes-iterator_access o1 o2 o3 = elim (Bool-cases (any_same id o1 o2 o3)) [
      | inl same ↦ unfold iterator_access passes all_hold in rw same refl
      | inr d ↦
          let (c, e, s) = three_inserted_lem o1 o2 o3 d in
          iterator_access-three o1 o2 o3 c e s d ∙ rw d refl
    ]

    shown_lem :
        (c : Container M) (os : List T)
        → seq M c ≡ os
        → length os < u64_mod
        → shown M self c ≡ ok os
    unfolding shown loop_of
    shown_lem c os s fits = rw (size_seq M c, visit-begin M self c (rw s fits), s) refl

    range_based_for-three :
        (o1 o2 o3 : T) (c : Container M)
        → three_inserted M o1 o2 o3 ≡ ok (c, true ∷ true ∷ true ∷ [])
        → seq M c ≡ o1 ∷ o2 ∷ o3 ∷ []
        → any_same id o1 o2 o3 ≡ false
        → passes (range_based_for M self o1 o2 o3) ≡ not (id o1 == 0 || id o2 == 0 || id o3 == 0)
    unfolding range_based_for
    range_based_for-three o1 o2 o3 c e s d =
        rw
          (
            range_based_for,
            d,
            e,
            shown_lem (create M) [] (seq-create M) (omega arith),
            shown_lem c (o1 ∷ o2 ∷ o3 ∷ []) s (omega arith),
          )
          (unfold passes all_hold other_ids in ground arith)

    -- The case `range_based_for` passes exactly for three objects with different ids, none of them 0.
    passes-range_based_for :
        (o1 o2 o3 : T)
        → passes (range_based_for M self o1 o2 o3)
          ≡ not (any_same id o1 o2 o3 || id o1 == 0 || id o2 == 0 || id o3 == 0)
    passes-range_based_for o1 o2 o3 = elim (Bool-cases (any_same id o1 o2 o3)) [
      | inl same ↦ unfold range_based_for passes all_hold in rw same refl
      | inr d ↦
          let (c, e, s) = three_inserted_lem o1 o2 o3 d in
          range_based_for-three o1 o2 o3 c e s d ∙ rw d refl
    ]
