-- ===== src/Container/Index.antt =====
-- What IdTaggedContainer.hpp relies on of `boost::multi_index_container` with the indices
-- `ordered_unique` (by_id) and `random_access` (by_random). Elements are the objects that the
-- stored pointers, which are never null, point to.
use moose_tools.Prelude.{
  ℕ, suc, ◌<◌, ◌≡◌, refl, List, [], ◌∷◌, ◌++◌, Option, ltb, if◌then◌else◌, length, take, drop,
}
use moose_tools.Container.Ids.{ids, count, find_id, remove_id}

-- The sequence without the element at a position.
abbrev pub remove_at {ℓ} : {T : Type ℓ} → List T → ℕ → List T
remove_at os i = take i os ++ drop (suc i) os

pub record MultiIndex {T : Type 0} (id : T → ℕ) : Type 1 where
  pub Store : Type 0
  pub empty : Store
  -- the elements in the order of by_random
  pub by_random : Store → List T
  pub size : Store → ℕ
  -- `count`, `find`, `insert` and `erase` of by_id; `erase` also returns how many it erased
  pub count_of : Store → ℕ → ℕ
  pub find : Store → ℕ → Option T
  pub insert : Store → T → Store
  pub erase : Store → ℕ → Store × ℕ
  -- `erase(project<by_id>(by_random.begin() + i))`
  pub erase_at : Store → ℕ → Store
  pub clear : Store → Store
  pub by_random-empty : by_random empty ≡ []
  pub size_lem : (s : Store) → size s ≡ length (by_random s)
  pub count_of_lem : (s : Store) (k : ℕ) → count_of s k ≡ count k (ids id (by_random s))
  pub find_lem : (s : Store) (k : ℕ) → find s k ≡ find_id id k (by_random s)
  -- a new element goes to the end of by_random; a known key is refused
  pub by_random-insert :
      (s : Store) (o : T)
      → by_random (insert s o) ≡ (
          if ltb 0 (count (id o) (ids id (by_random s)))
          then by_random s
          else by_random s ++ o ∷ [])
  pub by_random-erase : (s : Store) (k : ℕ) → by_random (erase s k).0 ≡ remove_id id k (by_random s)
  pub erased : (s : Store) (k : ℕ) → (erase s k).1 ≡ count k (ids id (by_random s))
  -- the others keep their order
  pub by_random-erase_at :
      (s : Store) (i : ℕ)
      → i < length (by_random s)
      → by_random (erase_at s i) ≡ remove_at (by_random s) i
  pub by_random-clear : (s : Store) → by_random (clear s) ≡ []

-- Lists meet these requirements.
abbrev pub list_index : {T : Type 0} (id : T → ℕ) → MultiIndex id
list_index {T} id = record {
  Store = List T;
  empty = [];
  by_random = λ s. s;
  size = length;
  count_of = λ s k. count k (ids id s);
  find = λ s k. find_id id k s;
  insert = λ s o. if ltb 0 (count (id o) (ids id s)) then s else s ++ o ∷ [];
  erase = λ s k. (remove_id id k s, count k (ids id s));
  erase_at = remove_at;
  clear = λ s. [];
  by_random-empty = refl;
  size_lem = λ s. refl;
  count_of_lem = λ s k. refl;
  find_lem = λ s k. refl;
  by_random-insert = λ s o. refl;
  by_random-erase = λ s k. refl;
  erased = λ s k. refl;
  by_random-erase_at = λ s i h. refl;
  by_random-clear = λ s. refl;
}
