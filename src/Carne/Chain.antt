-- ===== src/Carne/Chain.antt =====
-- Carne.hpp: what `increase_incarnation` does to an object and to those above it.
use mathlib.Core.Path.{fun_ext}
use mathlib.Core.Option
use moose_tools.Prelude.{
  ℕ, zero, suc, ◌+◌, ◌%◌, ◌<◌, ◌≡◌, refl, Option, none, some, List, [], ◌∷◌, arith, u64_mod, ◌==◌,
  if◌then◌else◌, Option-cases, inl, inr, ◌∙◌, ap,
}
use moose_tools.Carne.{Heap, bump, increase_incarnation}

-- The object, its parent, the parent's parent and so on; `none` if one of these is null.
unfoldable pub chain : ℕ → Heap → ℕ → Option (List ℕ)
chain zero h a = some (a ∷ [])
chain (suc depth) h a = elim (h a).parent [
  | none ↦ none
  | some p ↦ Option.map (◌∷◌ a) (chain depth h p)
]

unfoldable pub occurrences : ℕ → List ℕ → ℕ
occurrences b [] = 0
occurrences b (a ∷ path) = (if a == b then 1 else 0) + occurrences b path

-- Each object on the path counted, as often as it stands there; the others as they were.
pub counted : Heap → List ℕ → Heap
unfolding occurrences
counted h path b = record (h b) { incarnation = ((h b).incarnation + occurrences b path) % u64_mod }

abbrev pub IsBounded : Heap → Type 0
IsBounded h = (b : ℕ) → (h b).incarnation < u64_mod

bump-IsBounded : (h : Heap) (a : ℕ) → IsBounded h → IsBounded (bump h a)
unfolding bump
bump-IsBounded h a v b = ground (arith, v b)

pub parent-bump : (h : Heap) (a b : ℕ) → (bump h a b).parent ≡ (h b).parent
unfolding bump
parent-bump h a b = ground arith

pub chain-bump : (depth : ℕ) (h : Heap) (a b : ℕ) → chain depth (bump h a) b ≡ chain depth h b
unfolding chain
chain-bump zero h a b = refl
chain-bump (suc depth) h a b = elim (Option-cases (h b).parent) [
  | inl e ↦ rw (parent-bump h a b, e, chain)
  | inr (p, e) ↦ rw (parent-bump h a b, e, chain) (ap (Option.map (◌∷◌ b)) (chain-bump depth h a p))
]

counted_one : (h : Heap) (a : ℕ) → IsBounded h → bump h a ≡ counted h (a ∷ [])
unfolding bump counted
counted_one h a v = fun_ext (λ b. ground (arith, v b))

counted-bump : (h : Heap) (a : ℕ) (path : List ℕ) → counted (bump h a) path ≡ counted h (a ∷ path)
unfolding bump counted
counted-bump h a path = fun_ext (λ b. ground arith)

map-counted-bump :
    (h : Heap) (a : ℕ) (o : Option (List ℕ))
    → Option.map (counted (bump h a)) o ≡ Option.map (counted h) (Option.map (◌∷◌ a) o)
map-counted-bump h a none = refl
map-counted-bump h a (some path) = ap some (counted-bump h a path)

-- In a heap of 64-bit counters, increasing an object of a class with `depth` parent types fails its
-- assertion exactly if a parent on the way is null, and otherwise counts the object and all those
-- above it once, modulo 2 ^ 64, and leaves every other object and all parents as they were.
pub increase_incarnation-chain :
    (depth : ℕ) (h : Heap) (a : ℕ)
    → ((b : ℕ) → (h b).incarnation < u64_mod)
    → increase_incarnation depth h a ≡ Option.map (counted h) (chain depth h a)
unfolding increase_incarnation chain
increase_incarnation-chain zero h a v = ap some (counted_one h a v)
increase_incarnation-chain (suc depth) h a v = elim (Option-cases (h a).parent) [
  | inl e ↦ rw (e, increase_incarnation, chain)
  | inr (p, e) ↦
      rw (e, increase_incarnation, chain)
        (increase_incarnation-chain depth (bump h a) p (bump-IsBounded h a v)
          ∙ ap (Option.map (counted (bump h a))) (chain-bump depth h a p)
          ∙ map-counted-bump h a (chain depth h p))
]
