-- ===== src/Container/Iterator/Purge.antt =====
-- The loop that `erase` is for: what a client does to remove some objects while it goes through them.
use moose_tools.Prelude.{
  ℕ, zero, suc, ◌+◌, ◌≤◌, ◌<◌, ◌%◌, ◌≡◌, refl, sym, ap, subst, ◌∙◌, Bool, true, false, Option, none,
  some, List, [], ◌∷◌, ◌++◌, arith, some_lem, length, get_elem?, take, drop, u64_mod, next64, ◌==◌,
  Bool-cases, inl, inr, append_assoc, take-append-drop, if◌then◌else◌,
}
use moose_tools.Errors.{ok, thrown}
use moose_tools.Container.Index.{MultiIndex, remove_at}
use moose_tools.Container.{Container, increased}
use moose_tools.Container.View.{seq}
use moose_tools.Container.Iterator.{
  Iterator, begin, end, increment, advance, dereference, equal, erase,
}
use moose_tools.Container.Iterator.Erase.{erase_lem, length-remove_at}
use moose_tools.Container.Iterator.Loop.{drop_step, drop_all, at_end, next_idx, read, start}

module _ {T : Type 0} (bad : T → Bool) where
  -- The objects that stay, and how many go.
  unfoldable pub kept : List T → List T
  kept [] = []
  kept (o ∷ os) = let rest = kept os in if bad o then rest else o ∷ rest

  unfoldable pub removed : List T → ℕ
  removed [] = 0
  removed (o ∷ os) = let rest = removed os in if bad o then suc rest else rest

module _ {ℓ} {T : Type ℓ} where
  take_step :
      (os : List T) (i : ℕ) (o : T)
      → get_elem? os i ≡ some o
      → take (suc i) os ≡ take i os ++ o ∷ []
  take_step [] i o e = absurd (cc)
  take_step (x ∷ os) zero o e = ap (λ y. y ∷ []) (some_lem x o e)
  take_step (x ∷ os) (suc i) o e = ap (◌∷◌ x) (take_step os i o e)

  take-remove_at : (os : List T) (i : ℕ) → i < length os → take i (remove_at os i) ≡ take i os
  take-remove_at [] i h = absurd (omega arith)
  take-remove_at (x ∷ os) zero h = refl
  take-remove_at (x ∷ os) (suc i) h = ap (◌∷◌ x) (take-remove_at os i (omega arith))

  drop-remove_at : (os : List T) (i : ℕ) → i < length os → drop i (remove_at os i) ≡ drop (suc i) os
  drop-remove_at [] i h = absurd (omega arith)
  drop-remove_at (x ∷ os) zero h = refl
  drop-remove_at (x ∷ os) (suc i) h = drop-remove_at os i (omega arith)

module _ {T : Type 0} (bad : T → Bool) where
  -- One round at a position, of an object that stays or that goes.
  stays_lem :
      (os : List T) (i : ℕ) (o : T)
      → bad o ≡ false
      → get_elem? os i ≡ some o
      → drop i os ≡ o ∷ drop (suc i) os
      → (take (suc i) os ++ kept bad (drop (suc i) os) ≡ take i os ++ kept bad (drop i os))
        × (removed bad (drop (suc i) os) ≡ removed bad (drop i os))
  unfolding kept removed
  stays_lem os i o b g d = (
    rw (take_step os i o g, d, b) (append_assoc (take i os) (o ∷ []) (kept bad (drop (suc i) os))),
    rw (d, b) refl,
  )

  goes_lem :
      (os : List T) (i : ℕ) (o : T)
      → bad o ≡ true
      → i < length os
      → drop i os ≡ o ∷ drop (suc i) os
      → (take i (remove_at os i) ++ kept bad (drop i (remove_at os i))
          ≡ take i os ++ kept bad (drop i os))
        × (suc (removed bad (drop i (remove_at os i))) ≡ removed bad (drop i os))
  unfolding kept removed
  goes_lem os i o b h d = (
    rw (take-remove_at os i h, drop-remove_at os i h, d, b) refl,
    rw (drop-remove_at os i h, d, b) refl,
  )

module _ {T : Type 0} {id : T → ℕ} (M : MultiIndex id) (self : ℕ) (bad : T → Bool) where
  -- `for (it = c.begin(); it != c.end();) if (bad(*it)) it = c.erase(it); else ++it;`, for so many rounds;
  -- `none` if the rounds run out or an access throws.
  pub purge : ℕ → Container M → Iterator → Option (Container M)
  purge zero c it = none
  purge (suc rounds) c it = elim (equal it (end M self c)) [
    | true ↦ some c
    | false ↦ elim (dereference M self c it) [
      | thrown e ↦ none
      | ok o ↦ elim (bad o) [
        | true ↦ purge rounds (erase M self c it).0 (erase M self c it).1
        | false ↦ purge rounds c (increment it)
      ]
    ]
  ]

  advance_twice :
      (c : Container M) (i : ℕ)
      → advance (begin M self c) ((0 + i) % u64_mod) ≡ advance (begin M self c) i
  unfolding advance begin
  advance_twice c i = ground arith

  erase_idx :
      (c : Container M) (i : ℕ)
      → i < length (seq M c)
      → length (seq M c) < u64_mod
      → let r = erase M self c (advance (begin M self c) i) in r.1 ≡ advance (begin M self r.0) i
  unfolding erase
  erase_idx c i h fits =
      let differs : (i == length (seq M c)) ≡ false = ground arith in
      rw (at_end M self c i (omega arith) fits, differs, erase)
        (advance_twice (increased M c (M.erase_at c.objects ((0 + i) % u64_mod))) i)

  -- From a position on, the loop keeps what stands before it.
  abbrev Purged : Container M → ℕ → Option (Container M) → Type 0
  Purged c i r =
      (c' : Container M) × (r ≡ some c')
      × (seq M c' ≡ take i (seq M c) ++ kept bad (drop i (seq M c)))
      × (c'.incarnation ≡ (c.incarnation + removed bad (drop i (seq M c))) % u64_mod)

  goes_on :
      (c c1 : Container M) (i : ℕ) (o : T) (r : Option (Container M))
      → seq M c1 ≡ remove_at (seq M c) i
      → c1.incarnation ≡ next64 c.incarnation
      → bad o ≡ true
      → i < length (seq M c)
      → drop i (seq M c) ≡ o ∷ drop (suc i) (seq M c)
      → Purged c1 i r
      → Purged c i r
  goes_on c c1 i o r s n b h d (c', q, t, m) =
      let (l, k) = goes_lem bad (seq M c) i o b h d in
      let same = ap (λ os. removed bad (drop i os)) s in
      (c', q, t ∙ ap (λ os. take i os ++ kept bad (drop i os)) s ∙ l, omega (arith, m, n, k, same))

  at_last :
      (c : Container M) (i : ℕ)
      → i ≡ length (seq M c)
      → c.incarnation < u64_mod
      → Purged c i (some c)
  unfolding kept removed
  at_last c i e word =
      let none_left : drop i (seq M c) ≡ [] =
        ap (λ (n : ℕ). drop n (seq M c)) e ∙ drop_all (seq M c) in
      (
        c,
        refl,
        sym (take-append-drop i (seq M c))
            ∙ ap (λ os. take i (seq M c) ++ os) (none_left ∙ sym (ap (kept bad) none_left)),
        rw none_left (omega arith),
      )

  purge_from :
      (rounds i : ℕ) (c : Container M)
      → length (seq M c) < u64_mod
      → c.incarnation < u64_mod
      → i ≤ length (seq M c)
      → length (seq M c) < rounds + i
      → Purged c i (purge rounds c (advance (begin M self c) i))
  unfolding purge
  purge_from zero i c fits word h enough = absurd (omega arith)
  purge_from (suc rounds) i c fits word h enough = elim (Bool-cases (i == length (seq M c))) [
    | inl e ↦ rw (at_end M self c i h fits, e, purge) (at_last c i (ground arith) word)
    | inr e ↦
        let (o, g, d) = drop_step (seq M c) i (ground arith) in
        elim (Bool-cases (bad o)) [
          | inl gone ↦
              rw (at_end M self c i h fits, e, purge, read M self c i o (ground arith) g, gone)
                (let (s, n, _, _) = erase_lem M self c i (ground arith) fits in
                  let shorter = length-remove_at (seq M c) i (ground arith) in
                  let c1 = (erase M self c (advance (begin M self c) i)).0 in
                  let same_length = ap (λ (os : List T). length os) s in
                  goes_on c c1 i o (purge rounds c1 (erase M self c (advance (begin M self c) i)).1)
                    s n gone (ground arith) d
                    (subst (λ it. Purged c1 i (purge rounds c1 it))
                      (sym (erase_idx c i (ground arith) fits))
                      (purge_from rounds i c1 (omega (arith, shorter, same_length))
                        (omega (arith, n)) (ground (arith, shorter, same_length))
                        (omega (arith, shorter, same_length)))))
          | inr stays ↦
              rw
                (
                  at_end M self c i h fits,
                  e,
                  purge,
                  read M self c i o (ground arith) g,
                  stays,
                  next_idx M self c i,
                )
                (let (c', q, t, m) =
                    purge_from rounds (suc i) c fits word (ground arith) (omega arith) in
                  let (l, k) = stays_lem bad (seq M c) i o stays g d in
                  (c', q, t ∙ l, m ∙ ap (λ (r : ℕ). (c.incarnation + r) % u64_mod) k))
        ]
  ]

  -- The loop that erases each object that is bad and steps over the others, in a container that a 64-bit
  -- index can address and whose counter is a 64-bit number: it ends after `size() + 1` tests, throws
  -- nothing, removes exactly the objects that are bad, keeps the order of the others, and counts once for
  -- each that it removes.
  pub purge-begin :
      (c : Container M)
      → length (seq M c) < u64_mod
      → c.incarnation < u64_mod
      → (c' : Container M) × (purge (length (seq M c) + 1) c (begin M self c) ≡ some c')
        × (seq M c' ≡ kept bad (seq M c))
        × (c'.incarnation ≡ (c.incarnation + removed bad (seq M c)) % u64_mod)
  purge-begin c fits word =
      rw (← start M self c)
        (purge_from (length (seq M c) + 1) 0 c fits word (omega arith) (omega arith))
