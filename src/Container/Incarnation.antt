-- ===== src/Container/Incarnation.antt =====
-- The container's incarnation as a change detector.
use moose_tools.Prelude.{
  ℕ, ◌+◌, ◌≤◌, ◌<◌, ◌≡◌, refl, true, false, none, some, List, [], ◌∷◌, arith, length, next64,
  u64_mod, ◌⊎◌, inl, inr,
}
use moose_tools.Carne.{changed}
use moose_tools.Container.Ids.{remove_id-absent}
use moose_tools.Container.Index.{MultiIndex}
use moose_tools.Container.{move_assign, Container, clear}
use moose_tools.Container.View.{seq, insert_lem, replace_lem, remove_lem, clear_lem, size_seq}
use moose_tools.Container.Refinement.{
  Call, inserts, replaces, removes, clears, step, run, IsValid, step-IsValid, null_insert,
  null_replace,
}

module _ {T : Type 0} {id : T → ℕ} (M : MultiIndex id) where
  -- A call either counts once, or leaves the objects and the counter alone.
  step_counts :
      (c : Container M) (call : Call T)
      → IsValid M c
      → ((step M c call).0.incarnation ≡ next64 c.incarnation)
        ⊎ ((seq M (step M c call).0 ≡ seq M c) × ((step M c call).0.incarnation ≡ c.incarnation))
  unfolding step
  step_counts c (inserts none) v = rw null_insert (inr (refl, refl))
  step_counts c (inserts (some o)) v = ground (arith, insert_lem M c o)
  step_counts c (replaces none) v = rw null_replace (inr (refl, refl))
  step_counts c (replaces (some o)) v = inl ((replace_lem M c o v).2)
  step_counts c (removes k) v = ground (arith, remove_lem M c k v, remove_id-absent id k (seq M c))
  step_counts c clears v = cleared (seq M c) refl
    where
      cleared :
          (os : List T)
          → seq M c ≡ os
          → ((clear M c).incarnation ≡ next64 c.incarnation)
            ⊎ ((seq M (clear M c) ≡ seq M c) × ((clear M c).incarnation ≡ c.incarnation))
      cleared [] e = ground (arith, clear_lem M c, size_seq M c)
      cleared (o ∷ os) e = ground (arith, clear_lem M c, size_seq M c)

  -- In a container without a doubled id, any calls that cannot overflow the counter: it never falls, and
  -- it is `changed` from the value known before, or the container holds the same objects in the same order.
  pub run-changed :
      (c : Container M) (calls : List (Call T))
      → IsValid M c
      → c.incarnation + length calls < u64_mod
      → (c.incarnation ≤ (run M c calls).0.incarnation)
        × ((changed (run M c calls).0.incarnation c.incarnation ≡ true)
            ⊎ (seq M (run M c calls).0 ≡ seq M c))
  unfolding run changed
  run-changed c [] v h = (omega arith, inr refl)
  run-changed c (call ∷ calls) v h = elim (step_counts c call v) [
    | inl e ↦
        let (up, _) =
          run-changed (step M c call).0 calls (step-IsValid M c call v) (omega (arith, e)) in
        (omega (arith, e, up), inl (ground (arith, e, up)))
    | inr (s, e) ↦
        let (up, kept) =
          run-changed (step M c call).0 calls (step-IsValid M c call v) (omega (arith, e)) in
        (omega (arith, e, up), ground (arith, kept, s, e))
  ]

  -- A move assignment takes over the objects of the other container, and each container keeps its
  -- counter: a client that knows the counter is told of no change.
  move_assign-changed :
      (c other : Container M)
      → let (c', other') = move_assign M c other in
        (seq M c' ≡ seq M other)
        × (seq M other' ≡ seq M c)
        × (changed c'.incarnation c.incarnation ≡ false)
        × (changed other'.incarnation other.incarnation ≡ false)
  unfolding move_assign changed
  move_assign-changed c other = ground arith
