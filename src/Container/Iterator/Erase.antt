-- ===== src/Container/Iterator/Erase.antt =====
-- `erase` of the container at an iterator.
use moose_tools.Prelude.{
  ℕ, zero, suc, ◌+◌, ◌≤◌, ◌<◌, ◌≡◌, some, List, [], ◌∷◌, arith, length, get_elem?, take, drop,
  length-append, length-take, length-drop, next64, u64_mod, ltb, if◌then◌else◌,
}
use moose_tools.Container.Ids.{ids, count, Distinct}
use moose_tools.Container.Index.{MultiIndex, remove_at}
use moose_tools.Container.{Container}
use moose_tools.Container.View.{seq, size_seq}
use moose_tools.Container.Iterator.{begin, advance, erase}

module _ {ℓ} {T : Type ℓ} where
  get_elem?-remove_at :
      (os : List T) (i j : ℕ)
      → get_elem? (remove_at os i) j ≡ get_elem? os (if ltb j i then j else suc j)
  get_elem?-remove_at [] zero j = ground arith
  get_elem?-remove_at [] (suc i) j = ground arith
  get_elem?-remove_at (o ∷ os) zero j = ground arith
  get_elem?-remove_at (o ∷ os) (suc i) zero = ground arith
  get_elem?-remove_at (o ∷ os) (suc i) (suc j) = ground (arith, get_elem?-remove_at os i j)

  pub length-remove_at :
      (os : List T) (i : ℕ) → i < length os → length (remove_at os i) + 1 ≡ length os
  length-remove_at os i h =
      omega (
        arith,
        length-append (take i os) (drop (suc i) os),
        length-take i os,
        length-drop (suc i) os,
      )

module _ {T : Type 0} (id : T → ℕ) where
  count-remove_at :
      (k : ℕ) (os : List T) (i : ℕ) → count k (ids id (remove_at os i)) ≤ count k (ids id os)
  unfolding count
  count-remove_at k [] zero = omega arith
  count-remove_at k [] (suc i) = omega arith
  count-remove_at k (o ∷ os) zero = omega arith
  count-remove_at k (o ∷ os) (suc i) = omega (arith, count-remove_at k os i)

  remove_at-Distinct :
      (os : List T) (i : ℕ) → Distinct (ids id os) → Distinct (ids id (remove_at os i))
  unfolding count
  remove_at-Distinct [] zero d = tt
  remove_at-Distinct [] (suc i) d = tt
  remove_at-Distinct (o ∷ os) zero d = d.1
  remove_at-Distinct (o ∷ os) (suc i) d =
      (omega (arith, d.0, count-remove_at (id o) os i), remove_at-Distinct os i d.1)

module _ {T : Type 0} {id : T → ℕ} (M : MultiIndex id) (self : ℕ) where
  pub erase_lem :
      (c : Container M) (i : ℕ)
      → i < length (seq M c)
      → length (seq M c) < u64_mod
      → (seq M (erase M self c (advance (begin M self c) i)).0 ≡ remove_at (seq M c) i)
        × ((erase M self c (advance (begin M self c) i)).0.incarnation ≡ next64 c.incarnation)
        × ((erase M self c (advance (begin M self c) i)).1.container ≡ some self)
        × ((erase M self c (advance (begin M self c) i)).1.idx ≡ i)
  unfolding erase
  erase_lem c i h fits = ground (arith, size_seq M c, M.by_random-erase_at c.objects i)

  -- Erasing at a position below the size of a container that a 64-bit index can address: the object
  -- there goes and the others keep their order, the container has one object less and counts once,
  -- and the returned iterator stands at the same position, where the object that came next now is.
  erase-next :
      (c : Container M) (i j : ℕ)
      → i < length (seq M c)
      → length (seq M c) < u64_mod
      → let r = erase M self c (advance (begin M self c) i) in
        (get_elem? (seq M r.0) j ≡ get_elem? (seq M c) (if ltb j i then j else suc j))
        × (length (seq M r.0) + 1 ≡ length (seq M c))
        × (r.0.incarnation ≡ next64 c.incarnation)
        × (r.1.container ≡ some self)
        × (r.1.idx ≡ i)
  erase-next c i j h fits =
      let (s, n, a, x) = erase_lem c i h fits in
      (rw s (get_elem?-remove_at (seq M c) i j), rw s (length-remove_at (seq M c) i h), n, a, x)

  erase-IsValid :
      (c : Container M) (i : ℕ)
      → i < length (seq M c)
      → length (seq M c) < u64_mod
      → Distinct (ids id (seq M c))
      → Distinct (ids id (seq M (erase M self c (advance (begin M self c) i)).0))
  erase-IsValid c i h fits d = rw (erase_lem c i h fits).0 (remove_at-Distinct id (seq M c) i d)
