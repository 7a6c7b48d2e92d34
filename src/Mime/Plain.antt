-- ===== src/Mime/Plain.antt =====
-- An instance of `Symbols`: every key is tried.
use moose_tools.Prelude.{
  ℕ, zero, suc, ◌+◌, ◌≤◌, ◌≡◌, refl, Bool, true, false, Option, none, some, [], ◌∷◌, map, Bytes,
  length, get_elem?, drop, ltb, leb, ◌&&◌, if◌then◌else◌, arith, Bool-cases, inl, inr, subst,
}
use moose_tools.Mime.Libraries.{Symbols, Table, IsEntry, starts_with}

unfoldable pub small : ℕ → ℕ
small c = if leb b'A' c && leb c b'Z' then c + 32 else c

-- The longer one of a row and the best row so far, if the text begins with the row's key.
unfoldable pub better : Bool → Bytes × Bytes → Option (Bytes × Bytes) → Option (Bytes × Bytes)
better false r o = o
better true r none = some r
better true r (some q) = if ltb (length r.0) (length q.0) then some q else some r

unfoldable pub best : Table → Bytes → Option (Bytes × Bytes)
unfolding better
best [] s = none
best (r ∷ t) s = better (starts_with r.0 s) r (best t s)

unfoldable pub IsBest : Table → Bytes → Option (Bytes × Bytes) → Type 0
IsBest t s none = (k a : Bytes) → IsEntry k a t → starts_with k s ≡ false
IsBest t s (some (k, a)) =
    IsEntry k a t
    × (starts_with k s ≡ true)
    × ((k' a' : Bytes) → IsEntry k' a' t → starts_with k' s ≡ true → length k' ≤ length k)

forall_cons :
    (P : Bytes → Type 0) (k a : Bytes) (t : Table)
    → P k
    → ((k' a' : Bytes) → IsEntry k' a' t → P k')
    → (k' a' : Bytes) → IsEntry k' a' ((k, a) ∷ t)
    → P k'
forall_cons P k a t h hs k' a' (zero, q) = let e : k ≡ k' = cc in subst P e h
forall_cons P k a t h hs k' a' (suc i, q) = hs k' a' (i, q)

clash : {b : Bool} → b ≡ true → b ≡ false → ⊥
clash p q = cc

abbrev IsLongest : Bytes → Bytes → Bytes → Type 0
IsLongest k s x = starts_with x s ≡ true → length x ≤ length k

better-IsBest :
    (b : Bool) (r : Bytes × Bytes) (t : Table) (s : Bytes) (o : Option (Bytes × Bytes))
    → starts_with r.0 s ≡ b
    → IsBest t s o
    → IsBest (r ∷ t) s (better b r o)
unfolding better IsBest
better-IsBest false (k, a) t s none e h = forall_cons (λ x. starts_with x s ≡ false) k a t e h
better-IsBest false (k, a) t s (some (k1, a1)) e ((i, q), p, m) =
    ((suc i, q), p, forall_cons (IsLongest k1 s) k a t (λ c. absurd (clash c e)) m)
better-IsBest true (k, a) t s none e h = (
  (zero, refl),
  e,
  forall_cons (IsLongest k s) k a t (λ c. omega arith) (λ k' a' w c. absurd (clash c (h k' a' w))),
)
better-IsBest true (k, a) t s (some (k1, a1)) e ((i, q), p, m) =
    elim (Bool-cases (ltb (length k) (length k1))) [
      | inl l ↦ rw l ((suc i, q), p, forall_cons (IsLongest k1 s) k a t (λ c. ground arith) m)
      | inr l ↦ rw l (
        (zero, refl),
        e,
        forall_cons (IsLongest k s) k a t (λ c. omega arith)
            (λ k' a' w c. ground (arith, m k' a' w c)),
      )
    ]

pub best-IsBest : (t : Table) (s : Bytes) → IsBest t s (best t s)
unfolding best IsBest
best-IsBest [] s = λ k a (i, q). cc
best-IsBest ((k, a) ∷ t) s =
    better-IsBest (starts_with k s) (k, a) t s (best t s) refl (best-IsBest t s)

unfoldable pub found : Bytes → Option (Bytes × Bytes) → Option (Bytes × Bytes)
found s none = none
found s (some (k, a)) = some (a, drop (length k) s)

pub found_sound :
    (t : Table) (s s' a rest : Bytes) (o : Option (Bytes × Bytes))
    → IsBest t s' o
    → found s o ≡ some (a, rest)
    → (k : Bytes) × IsEntry k a t
      × (starts_with k s' ≡ true)
      × ((k' a' : Bytes) → IsEntry k' a' t → starts_with k' s' ≡ true → length k' ≤ length k)
unfolding found IsBest
found_sound t s s' a rest none h e = absurd cc
found_sound t s s' a rest (some (k, a1)) ((i, q), p, m) e =
    let f : a1 ≡ a = cc in (k, (i, subst (λ (x : Bytes). get_elem? t i ≡ some (k, x)) f q), p, m)

pub found-none :
    (t : Table) (s s' k a : Bytes) (o : Option (Bytes × Bytes))
    → IsBest t s' o
    → found s o ≡ none
    → IsEntry k a t
    → starts_with k s' ≡ false
unfolding found IsBest
found-none t s s' k a none h e w = h k a w
found-none t s s' k a (some (k1, a1)) h e w = absurd cc

unfoldable pub plain : Symbols
plain = record {
  lower = small;
  no_case = λ t s. found s (best t (map small s));
  no_case_sound = λ t s a rest e.
      found_sound t s (map small s) a rest (best t (map small s)) (best-IsBest t (map small s)) e;
  no_case_none = λ t s k a e w.
      found-none t s (map small s) k a (best t (map small s)) (best-IsBest t (map small s)) e w;
}
