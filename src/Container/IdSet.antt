-- ===== src/Container/IdSet.antt =====
-- What IdTaggedContainer.hpp relies on of `boost::container::set`, for ids: a sequence in increasing
-- order.
use moose_tools.Prelude.{
  ℕ, ◌<◌, ◌≤◌, ◌≡◌, refl, List, [], ◌∷◌, arith, ltb, ◌==◌, if◌then◌else◌, All, sym,
}
use native.Mathlib.Decide.{dec_lt}
use moose_tools.Container.Ids.{count}

abbrev pub IsIncreasing : List ℕ → Type 0
IsIncreasing [] = Unit
IsIncreasing (x ∷ xs) = All (λ y. x < y) xs × IsIncreasing xs

pub record IdSet : Type 1 where
  pub Store : Type 0
  pub empty : Store
  pub insert : ℕ → Store → Store
  -- the elements as an iterator shows them, which `==` of two sets compares
  pub elements : Store → List ℕ
  pub elements-empty : elements empty ≡ []
  pub elements-insert :
      (k j : ℕ) (s : Store)
      → IsIncreasing (elements s)
      → count j (elements (insert k s)) ≡ (if k == j then 1 else count j (elements s))
  pub insert-IsIncreasing :
      (k : ℕ) (s : Store) → IsIncreasing (elements s) → IsIncreasing (elements (insert k s))

-- Increasing lists with the same elements are one list.
pub count-above : (k : ℕ) (xs : List ℕ) → All (λ y. k < y) xs → count k xs ≡ 0
unfolding count
count-above k [] h = refl
count-above k (x ∷ xs) h = ground (arith, count-above k xs h.1)

above_le : (a b : ℕ) (xs : List ℕ) → a ≤ b → All (λ y. b < y) xs → All (λ y. a < y) xs
above_le a b [] l h = tt
above_le a b (x ∷ xs) l h = (omega arith, above_le a b xs l h.1)

head_le :
    (x y : ℕ) (xs ys : List ℕ)
    → IsIncreasing (x ∷ xs)
    → IsIncreasing (y ∷ ys)
    → count x (x ∷ xs) ≡ count x (y ∷ ys)
    → y ≤ x
unfolding count
head_le x y xs ys h k e = elim (dec_lt x y) [
  | yes l ↦
      absurd
        (omega (arith, count-above x (y ∷ ys) (l, above_le x y ys (omega arith) k.0), e, one x xs))
  | no n ↦ omega arith
]
  where
    one : (x : ℕ) (xs : List ℕ) → 1 ≤ count x (x ∷ xs)
    one x xs = ground arith

pub IsIncreasing-ext :
    (xs ys : List ℕ)
    → IsIncreasing xs
    → IsIncreasing ys
    → ((k : ℕ) → count k xs ≡ count k ys)
    → xs ≡ ys
unfolding count
IsIncreasing-ext [] [] h k e = refl
IsIncreasing-ext [] (y ∷ ys) h k e = absurd (ground (arith, e y))
IsIncreasing-ext (x ∷ xs) [] h k e = absurd (ground (arith, e x))
IsIncreasing-ext (x ∷ xs) (y ∷ ys) h k e =
    let same : x ≡ y =
      omega (arith, head_le x y xs ys h k (e x), head_le y x ys xs k h (sym (e y))) in
    let rest = IsIncreasing-ext xs ys h.1 k.1 (λ j. ground (arith, e j)) in rw (same, rest) refl

-- Increasing lists meet the requirements.
unfoldable pub insert_sorted : ℕ → List ℕ → List ℕ
insert_sorted k [] = k ∷ []
insert_sorted k (x ∷ xs) =
    let rest = insert_sorted k xs in
    if k == x then x ∷ xs else if ltb k x then k ∷ x ∷ xs else x ∷ rest

above_insert :
    (a k : ℕ) (xs : List ℕ) → a < k → All (λ y. a < y) xs → All (λ y. a < y) (insert_sorted k xs)
unfolding insert_sorted
above_insert a k [] l h = (l, tt)
above_insert a k (x ∷ xs) l h = ground (arith, above_insert a k xs l h.1)

pub insert_sorted-IsIncreasing :
    (k : ℕ) (xs : List ℕ) → IsIncreasing xs → IsIncreasing (insert_sorted k xs)
unfolding insert_sorted
insert_sorted-IsIncreasing k [] h = (tt, tt)
insert_sorted-IsIncreasing k (x ∷ xs) h = ground (
  arith,
  insert_sorted-IsIncreasing k xs h.1,
  above_insert x k xs,
  λ (l : k ≤ x). above_le k x xs l h.0,
)

pub count-insert_sorted :
    (k j : ℕ) (xs : List ℕ)
    → IsIncreasing xs
    → count j (insert_sorted k xs) ≡ (if k == j then 1 else count j xs)
unfolding insert_sorted count
count-insert_sorted k j [] h = ground arith
count-insert_sorted k j (x ∷ xs) h =
    ground (
      arith,
      count-insert_sorted k j xs h.1,
      λ (l : k ≤ x). count-above k xs (above_le k x xs l h.0),
    )

abbrev pub list_set : IdSet
list_set = record {
  Store = List ℕ;
  empty = [];
  insert = insert_sorted;
  elements = λ s. s;
  elements-empty = refl;
  elements-insert = count-insert_sorted;
  insert-IsIncreasing = insert_sorted-IsIncreasing;
}
