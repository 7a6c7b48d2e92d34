-- ===== src/Carne/Owed.antt =====
-- Carne.hpp: what threads still have to count, and that it hangs on the objects' parents only.
use mathlib.Core.Option
use moose_tools.Prelude.{
  ℕ, zero, suc, ◌+◌, ◌≡◌, refl, Option, none, some, List, [], ◌∷◌, arith, Option-cases, inl, inr,
  ◌∙◌, ap, All, map,
}
use moose_tools.Carne.{Heap, bump}
use moose_tools.Carne.Threads.{Task, calling, returned, terminated}
use moose_tools.Carne.Chain.{chain, occurrences, parent-bump}

-- How often a thread still has to count an object.
unfoldable pub owed_on : ℕ → Option (List ℕ) → ℕ
owed_on b none = 0
owed_on b (some path) = occurrences b path

unfoldable pub owed : Heap → ℕ → Task → ℕ
unfolding owed_on
owed h b (calling depth a) = owed_on b (chain depth h a)
owed h b _ = 0

unfoldable pub owed_all : Heap → ℕ → List Task → ℕ
unfolding owed
owed_all h b [] = 0
owed_all h b (t ∷ ts) = owed h b t + owed_all h b ts

pub owed_all-returned :
    (h : Heap) (b : ℕ) (ts : List Task) → owed_all h b (map (λ _. returned) ts) ≡ 0
unfolding owed_all owed
owed_all-returned h b [] = refl
owed_all-returned h b (t ∷ ts) = omega (arith, owed_all-returned h b ts)

-- No parent on a thread's way is null.
unfoldable pub IsWhole : Heap → Task → Type 0
IsWhole h (calling depth a) = (path : List ℕ) × (chain depth h a ≡ some path)
IsWhole h returned = Unit
IsWhole h terminated = ⊥

abbrev pub SameParents : Heap → Heap → Type 0
SameParents h h' = (b : ℕ) → (h' b).parent ≡ (h b).parent

chain-SameParents :
    (depth : ℕ) (h h' : Heap) (a : ℕ) → SameParents h h' → chain depth h' a ≡ chain depth h a
unfolding chain
chain-SameParents zero h h' a s = refl
chain-SameParents (suc depth) h h' a s = elim (Option-cases (h a).parent) [
  | inl e ↦ rw (s a, e, chain)
  | inr (p, e) ↦ rw (s a, e, chain) (ap (Option.map (◌∷◌ a)) (chain-SameParents depth h h' p s))
]

pub owed-SameParents :
    (h h' : Heap) (b : ℕ) (t : Task) → SameParents h h' → owed h' b t ≡ owed h b t
unfolding owed
owed-SameParents h h' b (calling depth a) s = rw (chain-SameParents depth h h' a s) refl
owed-SameParents h h' b returned s = refl
owed-SameParents h h' b terminated s = refl

pub owed_all-SameParents :
    (h h' : Heap) (b : ℕ) (ts : List Task) → SameParents h h' → owed_all h' b ts ≡ owed_all h b ts
unfolding owed_all
owed_all-SameParents h h' b [] s = refl
owed_all-SameParents h h' b (t ∷ ts) s =
    omega (arith, owed-SameParents h h' b t s, owed_all-SameParents h h' b ts s)

pub IsWhole-SameParents : (h h' : Heap) (t : Task) → SameParents h h' → IsWhole h t → IsWhole h' t
unfolding IsWhole
IsWhole-SameParents h h' (calling depth a) s (path, e) =
    (path, chain-SameParents depth h h' a s ∙ e)
IsWhole-SameParents h h' returned s w = tt
IsWhole-SameParents h h' terminated s w = w

pub bump-SameParents : (h : Heap) (a : ℕ) → SameParents h (bump h a)
bump-SameParents h a b = parent-bump h a b

pub All-SameParents :
    (h h' : Heap) (ts : List Task) → SameParents h h' → All (IsWhole h) ts → All (IsWhole h') ts
All-SameParents h h' [] s w = tt
All-SameParents h h' (t ∷ ts) s (w, ws) =
    (IsWhole-SameParents h h' t s w, All-SameParents h h' ts s ws)
