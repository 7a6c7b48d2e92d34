-- ===== src/UnitTests/Containers/Insertions.antt =====
-- test/TestIdTagged.cpp: what a case finds in a container whose objects are known.
use moose_tools.Prelude.{
  ℕ, ◌<◌, ◌≡◌, refl, ap, Bool, true, false, none, some, List, [], ◌∷◌, ◌++◌, arith, get_elem?,
}
use moose_tools.Errors.{Result, ok, thrown}
use moose_tools.Container.Index.{MultiIndex}
use moose_tools.Container.Ids.{ids, count}
use moose_tools.Container.{Container, insert, at, out_of_bounds}
use moose_tools.Container.View.{seq, after, reply, insert_lem}
use moose_tools.Container.Iterator.Loop.{found, at-get_elem?}

module _ {T : Type 0} {id : T → ℕ} (M : MultiIndex id) where
  reply-ok :
      (c : Container M) (r : Result (Container M × Bool)) (b : Bool)
      → reply r ≡ some b
      → r ≡ ok (after c r, b)
  reply-ok c (ok (c', b')) b e = ap (λ z. ok (c', z)) cc
  reply-ok c (thrown x) b e = absurd cc

  -- Insertions into a container whose objects are known.
  pub new_inserted :
      (c : Container M) (o : T) (os : List T)
      → seq M c ≡ os
      → count (id o) (ids id os) ≡ 0
      → (c' : Container M) × (insert M c (some o) ≡ ok (c', true)) × (seq M c' ≡ os ++ o ∷ [])
  new_inserted c o os e z =
      let (a, b, _) = insert_lem M c o in
      (
        after c (insert M c (some o)),
        reply-ok c (insert M c (some o)) true (ground (arith, a, e, z)),
        ground (arith, b, e, z),
      )

  pub known_inserted :
      (c : Container M) (o : T) (os : List T)
      → seq M c ≡ os
      → 0 < count (id o) (ids id os)
      → (c' : Container M) × (insert M c (some o) ≡ ok (c', false)) × (seq M c' ≡ os)
  known_inserted c o os e z =
      let (a, b, _) = insert_lem M c o in
      (
        after c (insert M c (some o)),
        reply-ok c (insert M c (some o)) false (ground (arith, a, e, z)),
        ground (arith, b, e, z),
      )

  pub looked_up :
      (c : Container M) (os : List T) (i : ℕ) (o : T)
      → seq M c ≡ os
      → get_elem? os i ≡ some o
      → at M c i ≡ ok o
  unfolding found
  looked_up c os i o e g = rw (at-get_elem? M c i, e, g) refl

  pub beyond :
      (c : Container M) (os : List T) (i : ℕ)
      → seq M c ≡ os
      → get_elem? os i ≡ none
      → at M c i ≡ thrown out_of_bounds
  unfolding found
  beyond c os i e g = rw (at-get_elem? M c i, e, g) refl
