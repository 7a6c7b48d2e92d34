-- ===== src/Container/Iterator/Loop.antt =====
-- `for (it = c.begin(); it != c.end(); ++it)`, and `operator[]`.
use moose_tools.Prelude.{
  ℕ, zero, suc, ◌+◌, ◌≤◌, ◌<◌, ◌≡◌, refl, true, false, Option, none, some, List, [], ◌∷◌, arith,
  length, get_elem?, drop, u64_mod, ◌==◌, Bool-cases, inl, inr,
}
use moose_tools.Errors.{Result, ok, thrown}
use moose_tools.Container.Index.{MultiIndex}
use moose_tools.Container.{Container, at, within, out_of_bounds}
use moose_tools.Container.View.{seq, size_seq}
use moose_tools.Container.Iterator.{Iterator, begin, end, increment, advance, dereference, equal}

module _ {ℓ} {T : Type ℓ} where
  pub drop_step :
      (os : List T) (i : ℕ)
      → i < length os
      → (o : T) × (get_elem? os i ≡ some o) × (drop i os ≡ o ∷ drop (suc i) os)
  drop_step [] i h = absurd (omega arith)
  drop_step (o ∷ os) zero h = (o, refl, refl)
  drop_step (o ∷ os) (suc i) h = drop_step os i (omega arith)

  pub drop_all : (os : List T) → drop (length os) os ≡ []
  drop_all [] = refl
  drop_all (o ∷ os) = drop_all os

  get_elem?-none : (os : List T) (i : ℕ) → length os ≤ i → get_elem? os i ≡ none
  get_elem?-none [] i h = refl
  get_elem?-none (o ∷ os) zero h = absurd (omega arith)
  get_elem?-none (o ∷ os) (suc i) h = get_elem?-none os i (omega arith)

module _ {T : Type 0} {id : T → ℕ} (M : MultiIndex id) where
  unfoldable pub found : Option T → Result T
  found (some o) = ok o
  found none = thrown out_of_bounds

  -- For any index, `operator[]` returns the object at that place of the sequence, and throws
  -- `out_of_bounds` where there is none.
  pub at-get_elem? : (c : Container M) (i : ℕ) → at M c i ≡ found (get_elem? (seq M c) i)
  unfolding at found within
  at-get_elem? c i = ground (arith, size_seq M c, get_elem?-none (seq M c) i)

  gathered : T → Option (Result (List T)) → Option (Result (List T))
  gathered o none = none
  gathered o (some (thrown e)) = some (thrown e)
  gathered o (some (ok os)) = some (ok (o ∷ os))

  module _ (self : ℕ) where
    -- The range-based for loop of a client, which collects the objects that it is shown; `none` if
    -- the rounds run out.
    pub visit : ℕ → Container M → Iterator → Option (Result (List T))
    visit zero c it = none
    visit (suc rounds) c it = elim (equal it (end M self c)) [
      | true ↦ some (ok [])
      | false ↦ elim (dereference M self c it) [
        | thrown e ↦ some (thrown e)
        | ok o ↦ gathered o (visit rounds c (increment it))
      ]
    ]

    pub at_end :
        (c : Container M) (i : ℕ)
        → i ≤ length (seq M c)
        → length (seq M c) < u64_mod
        → equal (advance (begin M self c) i) (end M self c) ≡ (i == length (seq M c))
    unfolding equal end
    at_end c i h fits = ground (arith, size_seq M c)

    pub next_idx :
        (c : Container M) (i : ℕ)
        → increment (advance (begin M self c) i) ≡ advance (begin M self c) (suc i)
    unfolding increment advance begin
    next_idx c i = ground arith

    pub read :
        (c : Container M) (i : ℕ) (o : T)
        → i < u64_mod
        → get_elem? (seq M c) i ≡ some o
        → dereference M self c (advance (begin M self c) i) ≡ ok o
    unfolding dereference advance begin found
    read c i o fits e = ground (arith, at-get_elem? c i)

    visit_from :
        (rounds i : ℕ) (c : Container M)
        → length (seq M c) < u64_mod
        → i ≤ length (seq M c)
        → length (seq M c) < rounds + i
        → visit rounds c (advance (begin M self c) i) ≡ some (ok (drop i (seq M c)))
    unfolding visit
    visit_from zero i c fits h enough = absurd (omega arith)
    visit_from (suc rounds) i c fits h enough = elim (Bool-cases (i == length (seq M c))) [
      | inl e ↦ rw (at_end c i h fits, e, visit) (ground (arith, drop_all (seq M c)))
      | inr e ↦
          let (o, g, d) = drop_step (seq M c) i (ground arith) in
          rw
            (
              at_end c i h fits,
              e,
              visit,
              read c i o (ground arith) g,
              next_idx c i,
              visit_from rounds (suc i) c fits (ground arith) (omega arith),
              d,
            )
            (unfold gathered in refl)
    ]

    pub start : (c : Container M) → advance (begin M self c) 0 ≡ begin M self c
    unfolding advance begin
    start c = refl

    -- In a container that a 64-bit index can address, the loop from `begin()` to `end()` ends after
    -- `size() + 1` tests, throws nothing and shows every object once, in the order of the sequence.
    pub visit-begin :
        (c : Container M)
        → length (seq M c) < u64_mod
        → visit (suc (length (seq M c))) c (begin M self c) ≡ some (ok (seq M c))
    visit-begin c fits =
        rw (← start c) (visit_from (suc (length (seq M c))) 0 c fits (omega arith) (omega arith))
