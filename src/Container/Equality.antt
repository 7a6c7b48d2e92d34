-- ===== src/Container/Equality.antt =====
-- `operator==` of two containers.
use moose_tools.Prelude.{ℕ, ◌≤◌, ◌<◌, ◌≡◌, refl, true, List, [], ◌∷◌, arith, length, ◌↔◌, sym}
use moose_tools.Container.Ids.{
  ids, count, Distinct, remove_id, length-remove_id, count-remove_id, remove_id-Distinct,
  Distinct-count_le,
}
use moose_tools.Container.Index.{MultiIndex}
use moose_tools.Container.{Container, has, all_known, equals}
use moose_tools.Container.View.{seq, has_lem, size_seq}

-- A sequence whose ids all stand in another, both without doubled ids, is no longer; and where it
-- is as long, the other has no further id.
module _ {T : Type 0} (id : T → ℕ) where
  abbrev IsCovered : List T → List T → Type 0
  IsCovered os ps = (k : ℕ) → count k (ids id os) ≤ count k (ids id ps)

  IsCovered-rest :
      (o : T) (os ps : List T)
      → Distinct (ids id (o ∷ os))
      → IsCovered (o ∷ os) ps
      → IsCovered os (remove_id id (id o) ps)
  unfolding count
  IsCovered-rest o os ps d w k = ground (arith, w k, count-remove_id id (id o) k ps)

  subset_length :
      (os ps : List T)
      → Distinct (ids id os)
      → Distinct (ids id ps)
      → IsCovered os ps
      → length os ≤ length ps
  unfolding count
  subset_length [] ps d e w = omega arith
  subset_length (o ∷ os) ps d e w =
      let shorter =
        subset_length os (remove_id id (id o) ps) d.1 (remove_id-Distinct id (id o) ps e)
          (IsCovered-rest o os ps d w) in
      ground (arith, shorter, w (id o), length-remove_id id (id o) ps)

  without_absent :
      (k : ℕ) (os ps : List T)
      → IsCovered os ps
      → count k (ids id os) ≡ 0
      → IsCovered os (remove_id id k ps)
  without_absent k os ps w z j = ground (arith, w j, count-remove_id id k j ps)

  same_length_onto :
      (os ps : List T) (k : ℕ)
      → Distinct (ids id os)
      → Distinct (ids id ps)
      → IsCovered os ps
      → length os ≡ length ps
      → count k (ids id os) ≡ 0
      → count k (ids id ps) ≡ 0
  same_length_onto os ps k d e w same z = omega (
    arith,
    subset_length os (remove_id id k ps) d (remove_id-Distinct id k ps e)
        (without_absent k os ps w z),
    length-remove_id id k ps,
  )

module _ {T : Type 0} {id : T → ℕ} (M : MultiIndex id) where
  all_known_sound :
      (d : Container M) (os : List T)
      → all_known M d os ≡ true
      → (k : ℕ) → 0 < count k (ids id os)
      → 0 < count k (ids id (seq M d))
  unfolding all_known count
  all_known_sound d [] h k p = absurd (omega arith)
  all_known_sound d (o ∷ os) h k p =
      ground (arith, has_lem M d (id o), all_known_sound d os (ground arith) k)

  all_known_complete :
      (d : Container M) (os : List T)
      → ((k : ℕ) → 0 < count k (ids id os) → 0 < count k (ids id (seq M d)))
      → all_known M d os ≡ true
  unfolding all_known count
  all_known_complete d [] h = refl
  all_known_complete d (o ∷ os) h =
      ground
        (arith, has_lem M d (id o), h (id o), all_known_complete d os (λ k p. h k (omega arith)))

  -- For `Distinct` ids, `has` is a count of one.
  IsCovered-of_agree :
      (c d : Container M)
      → Distinct (ids id (seq M c))
      → ((k : ℕ) → has M c k ≡ has M d k)
      → IsCovered id (seq M c) (seq M d)
  IsCovered-of_agree c d v e k =
      ground (arith, e k, has_lem M c k, has_lem M d k, Distinct-count_le k (ids id (seq M c)) v)

  IsCovered-of_known :
      (c d : Container M)
      → Distinct (ids id (seq M c))
      → all_known M d (seq M c) ≡ true
      → IsCovered id (seq M c) (seq M d)
  IsCovered-of_known c d v h k =
      ground (arith, all_known_sound d (seq M c) h k, Distinct-count_le k (ids id (seq M c)) v)

  has-of_IsCovered :
      (c d : Container M)
      → Distinct (ids id (seq M c))
      → Distinct (ids id (seq M d))
      → IsCovered id (seq M c) (seq M d)
      → length (seq M c) ≡ length (seq M d)
      → (k : ℕ) → has M c k ≡ has M d k
  has-of_IsCovered c d v v' w same k = ground (
    arith,
    has_lem M c k,
    has_lem M d k,
    w k,
    same_length_onto id (seq M c) (seq M d) k v v' w same,
  )

  -- For two containers without doubled ids, `operator==` is true exactly if each id is in both or in
  -- neither, whatever the order of the objects.
  pub equals-has :
      (c d : Container M)
      → Distinct (ids id (seq M c))
      → Distinct (ids id (seq M d))
      → (equals M c d ≡ true) ↔ ((k : ℕ) → has M c k ≡ has M d k)
  unfolding equals
  equals-has c d v v' = (
    λ h.
        has-of_IsCovered c d v v' (IsCovered-of_known c d v (ground arith))
          (ground (arith, size_seq M c, size_seq M d)),
    λ e.
        let w = IsCovered-of_agree c d v e in
        let w' = IsCovered-of_agree d c v' (λ k. sym (e k)) in
        let le = subset_length id (seq M c) (seq M d) v v' w in
        let ge = subset_length id (seq M d) (seq M c) v' v w' in
        ground (
          arith,
          size_seq M c,
          size_seq M d,
          le,
          ge,
          all_known_complete d (seq M c) (λ k p. ground (arith, w k)),
        ),
  )
