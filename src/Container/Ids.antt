-- ===== src/Container/Ids.antt =====
-- Sequences of id tagged objects: how often an id occurs, the object with an id, removal.
use moose_tools.Prelude.{
  ℕ, ◌+◌, ◌≤◌, ◌≡◌, refl, Option, none, some, List, [], ◌∷◌, ◌++◌, map, arith, ◌==◌, if◌then◌else◌,
  length, ◌↔◌,
}

-- How often an id occurs.
unfoldable pub count : ℕ → List ℕ → ℕ
count k [] = 0
count k (x ∷ xs) = (if x == k then 1 else 0) + count k xs

-- No id occurs twice.
abbrev pub Distinct : List ℕ → Type 0
Distinct [] = Unit
Distinct (x ∷ xs) = (count x xs ≡ 0) × Distinct xs

count-append : (k : ℕ) (xs ys : List ℕ) → count k (xs ++ ys) ≡ count k xs + count k ys
unfolding count
count-append k [] ys = omega arith
count-append k (x ∷ xs) ys = omega (arith, count-append k xs ys)

pub Distinct-count_le : (k : ℕ) (xs : List ℕ) → Distinct xs → count k xs ≤ 1
unfolding count
Distinct-count_le k [] h = omega arith
Distinct-count_le k (x ∷ xs) h = ground (arith, Distinct-count_le k xs h.1)

module _ {T : Type 0} (id : T → ℕ) where
  abbrev pub ids : List T → List ℕ
  ids = map id

  -- The first object with an id.
  unfoldable pub find_id : ℕ → List T → Option T
  find_id k [] = none
  find_id k (o ∷ os) = if id o == k then some o else find_id k os

  -- Without the objects of an id.
  unfoldable pub remove_id : ℕ → List T → List T
  remove_id k [] = []
  remove_id k (o ∷ os) = let rest = remove_id k os in if id o == k then rest else o ∷ rest

  pub find_id-append_one :
      (k : ℕ) (os : List T) (o : T)
      → count (id o) (ids os) ≡ 0
      → find_id k (os ++ o ∷ []) ≡ (if id o == k then some o else find_id k os)
  unfolding find_id count
  find_id-append_one k [] o h = refl
  find_id-append_one k (p ∷ os) o h = ground (arith, find_id-append_one k os o)

  pub find_id-remove_id :
      (k j : ℕ) (os : List T) → find_id j (remove_id k os) ≡ (if k == j then none else find_id j os)
  unfolding find_id remove_id
  find_id-remove_id k j [] = ground arith
  find_id-remove_id k j (o ∷ os) = ground (arith, find_id-remove_id k j os)

  pub find_id-count : (k : ℕ) (os : List T) → (find_id k os ≡ none) ↔ (count k (ids os) ≡ 0)
  unfolding find_id count
  find_id-count k [] = (λ _. refl, λ _. refl)
  find_id-count k (o ∷ os) =
      let ih = find_id-count k os in (λ h. ground (arith, ih.0), λ h. ground (arith, ih.1))

  pub count-remove_id :
      (k j : ℕ) (os : List T)
      → count j (ids (remove_id k os)) ≡ (if k == j then 0 else count j (ids os))
  unfolding count remove_id
  count-remove_id k j [] = ground arith
  count-remove_id k j (o ∷ os) = ground (arith, count-remove_id k j os)

  pub remove_id-Distinct :
      (k : ℕ) (os : List T) → Distinct (ids os) → Distinct (ids (remove_id k os))
  unfolding remove_id
  remove_id-Distinct k [] h = tt
  remove_id-Distinct k (o ∷ os) h =
      ground (arith, remove_id-Distinct k os h.1, count-remove_id k (id o) os)

  pub append_one-Distinct :
      (os : List T) (o : T)
      → Distinct (ids os)
      → count (id o) (ids os) ≡ 0
      → Distinct (ids (os ++ o ∷ []))
  unfolding count
  append_one-Distinct [] o d h = (refl, tt)
  append_one-Distinct (p ∷ os) o d h =
      ground (arith, append_one-Distinct os o d.1, count_one p os o)
    where
      count_one :
          (p : T) (os : List T) (o : T)
          → count (id p) (ids (os ++ o ∷ []))
            ≡ count (id p) (ids os) + (if id o == id p then 1 else 0)
      count_one p [] o = omega arith
      count_one p (q ∷ os) o = omega (arith, count_one p os o)

  -- Removing an absent id changes nothing.
  pub remove_id-absent : (k : ℕ) (os : List T) → count k (ids os) ≡ 0 → remove_id k os ≡ os
  unfolding remove_id count
  remove_id-absent k [] h = refl
  remove_id-absent k (o ∷ os) h = ground (arith, remove_id-absent k os)

  pub length-remove_id :
      (k : ℕ) (os : List T) → length (remove_id k os) + count k (ids os) ≡ length os
  unfolding remove_id count
  length-remove_id k [] = refl
  length-remove_id k (o ∷ os) = ground (arith, length-remove_id k os)
