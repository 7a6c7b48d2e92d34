-- ===== src/Container/Contents.antt =====
-- `ids_in_container` of IdTaggedContainer.hpp, and what its set says of `has` and `operator==`.
use moose_tools.Prelude.{
  ℕ, ◌≡◌, refl, true, Bool, List, [], ◌∷◌, arith, ltb, if◌then◌else◌, ◌↔◌, ap, sym, ◌∙◌,
}
use moose_tools.Container.Ids.{ids, count, Distinct}
use moose_tools.Container.Index.{MultiIndex}
use moose_tools.Container.IdSet.{IdSet, IsIncreasing, IsIncreasing-ext}
use moose_tools.Container.{Container, has, equals}
use moose_tools.Container.View.{seq, has_lem}
use moose_tools.Container.Equality.{equals-has}

module _ {T : Type 0} {id : T → ℕ} (M : MultiIndex id) (S : IdSet) where
  -- The loop over by_random, from what is in the set so far.
  inserted : List T → S.Store → S.Store
  inserted [] ret = ret
  inserted (o ∷ os) ret = inserted os (S.insert (id o) ret)

  pub ids_in_container : Container M → S.Store
  unfolding inserted
  ids_in_container c = inserted (M.by_random c.objects) S.empty

  inserted-IsIncreasing :
      (os : List T) (s : S.Store)
      → IsIncreasing (S.elements s)
      → IsIncreasing (S.elements (inserted os s))
  unfolding inserted
  inserted-IsIncreasing [] s h = h
  inserted-IsIncreasing (o ∷ os) s h =
      inserted-IsIncreasing os (S.insert (id o) s) (S.insert-IsIncreasing (id o) s h)

  count-inserted :
      (os : List T) (s : S.Store) (k : ℕ)
      → IsIncreasing (S.elements s)
      → count k (S.elements (inserted os s))
        ≡ (if ltb 0 (count k (ids id os)) then 1 else count k (S.elements s))
  unfolding inserted count
  count-inserted [] s k h = refl
  count-inserted (o ∷ os) s k h = ground (
    arith,
    count-inserted os (S.insert (id o) s) k (S.insert-IsIncreasing (id o) s h),
    S.elements-insert (id o) k s h,
  )

  -- The set of `ids_in_container` is in increasing order, and holds an id, once, exactly if `has` says
  -- that the container does.
  ids_in_container-has :
      (c : Container M)
      → IsIncreasing (S.elements (ids_in_container c))
        × ((k : ℕ) → count k (S.elements (ids_in_container c)) ≡ (if has M c k then 1 else 0))
  unfolding ids_in_container count
  ids_in_container-has c = (
    inserted-IsIncreasing (seq M c) S.empty (rw S.elements-empty tt),
    λ k. ground (
      arith,
      count-inserted (seq M c) S.empty k (rw S.elements-empty tt),
      S.elements-empty,
      has_lem M c k,
      ap (count k) S.elements-empty,
    ),
  )

  -- For two containers without doubled ids, `operator==` is true exactly if each id is in both or in
  -- neither, and exactly if `ids_in_container` yields equal sets.
  pub equals-ids_in_container :
      (c d : Container M)
      → Distinct (ids id (seq M c))
      → Distinct (ids id (seq M d))
      → ((equals M c d ≡ true) ↔ ((k : ℕ) → has M c k ≡ has M d k))
        × ((equals M c d ≡ true)
            ↔ (S.elements (ids_in_container c) ≡ S.elements (ids_in_container d)))
  equals-ids_in_container c d v v' =
      let (p, n) = ids_in_container-has c in
      let (q, m) = ids_in_container-has d in
      let (to, from) = equals-has M c d v v' in
      (
        (to, from),
        (
          λ h.
              IsIncreasing-ext _ _ p q
                (λ k. n k ∙ ap (λ (b : Bool). if b then 1 else 0) (to h k) ∙ sym (m k)),
          λ e. from (λ k. ground (arith, n k, m k, ap (count k) e)),
        ),
      )
