-- ===== src/Carne/Parentless.antt =====
-- Carne.hpp: programs that construct and increase objects.
use moose_tools.Prelude.{
  ℕ, zero, suc, ◌≡◌, ◌↔◌, refl, Bool, true, false, ◌||◌, ◌⊎◌, subst, Option, none, some, some_lem,
  List, [], ◌∷◌, ◌>>=◌, ◌==◌, if◌then◌else◌, arith, inl, inr,
}
use moose_tools.Carne.{Incarnated, initial, stored, Heap, bump, increase_incarnation}

-- The constructors at an address, the second from a stored incarnation; and `increase_incarnation` of
-- an object of a class with so many parent types. The copy constructor, which copies an atomic, and the
-- constructor with a parent do not compile when they are used.
pub data Call : Type 0 where
  constructs : ℕ → Call
  restores increases : ℕ → ℕ → Call

pub placed : Heap → ℕ → Incarnated → Heap
placed h a o b = if a == b then o else h b

-- `none` is a failed assertion.
unfoldable pub step : Heap → Call → Option Heap
step h (constructs a) = some (placed h a initial)
step h (restores a n) = some (placed h a (stored n))
step h (increases depth a) = increase_incarnation depth h a

unfoldable pub run : Heap → List Call → Option Heap
run h [] = some h
run h (c ∷ cs) = step h c >>= (λ h'. run h' cs)

-- The call increases an object of a class with a parent type.
unfoldable pub is_parented : Call → Bool
is_parented (increases (suc depth) a) = true
is_parented _ = false

unfoldable pub any_parented : List Call → Bool
any_parented [] = false
any_parented (c ∷ cs) = is_parented c || any_parented cs

abbrev IsParentless : Heap → Type 0
IsParentless h = (b : ℕ) → (h b).parent ≡ none

placed-IsParentless :
    (h : Heap) (a : ℕ) (o : Incarnated)
    → o.parent ≡ none
    → IsParentless h
    → IsParentless (placed h a o)
unfolding placed
placed-IsParentless h a o e p b = ground (arith, p b)

bump-IsParentless : (h : Heap) (a : ℕ) → IsParentless h → IsParentless (bump h a)
unfolding bump
bump-IsParentless h a p b = ground (arith, p b)

increase-parented :
    (h : Heap) (depth a : ℕ) → IsParentless h → increase_incarnation (suc depth) h a ≡ none
unfolding increase_incarnation
increase-parented h depth a p = rw (increase_incarnation, p a) refl

-- A call on objects without parents fails, or leaves objects without parents.
abbrev Steps : Heap → Call → Type 0
Steps h c =
    ((is_parented c ≡ true) × (step h c ≡ none))
    ⊎ ((is_parented c ≡ false) × ((h' : Heap) × (step h c ≡ some h') × IsParentless h'))

step-Steps : (h : Heap) (c : Call) → IsParentless h → Steps h c
unfolding step is_parented initial stored increase_incarnation
step-Steps h (constructs a) p =
    inr (refl, (placed h a initial, refl, placed-IsParentless h a initial refl p))
step-Steps h (restores a n) p =
    inr (refl, (placed h a (stored n), refl, placed-IsParentless h a (stored n) refl p))
step-Steps h (increases zero a) p = inr (refl, (bump h a, refl, bump-IsParentless h a p))
step-Steps h (increases (suc depth) a) p = inl (refl, increase-parented h depth a p)

run-parented :
    (h : Heap) (cs : List Call) → IsParentless h → (run h cs ≡ none) ↔ (any_parented cs ≡ true)
unfolding run any_parented
run-parented h [] p = (λ e. absurd (cc), λ e. absurd (cc))
run-parented h (c ∷ cs) p = elim (step-Steps h c p) [
  | inl (q, e) ↦ rw (e, q) (λ _. refl, λ _. refl)
  | inr (q, (h', e, p')) ↦ rw (e, q) (run-parented h' cs p')
]

run-IsParentless :
    (h h' : Heap) (cs : List Call) → IsParentless h → run h cs ≡ some h' → IsParentless h'
unfolding run
run-IsParentless h h' [] p e = subst IsParentless (some_lem h h' e) p
run-IsParentless h h' (c ∷ cs) p e = elim (step-Steps h c p) [
  | inl (_, f) ↦ absurd (cc (rw f at e))
  | inr (_, (h1, f, p1)) ↦ run-IsParentless h1 h' cs p1 (rw f at e)
]

-- Any calls of the default constructor, of the one from a stored incarnation, and of
-- increase_incarnation, on new objects: an assertion fails exactly if one of them increases an object of a class with a parent type, and no object has a
-- parent where none fails.
pub run-initial_parented :
    (cs : List Call)
    → ((run (λ _. initial) cs ≡ none) ↔ (any_parented cs ≡ true))
      × ((h : Heap) → run (λ _. initial) cs ≡ some h → (a : ℕ) → (h a).parent ≡ none)
unfolding initial
run-initial_parented cs = (
  run-parented (λ _. initial) cs (λ _. refl),
  λ h e. run-IsParentless (λ _. initial) h cs (λ _. refl) e,
)
