-- ===== src/Carne.antt =====
-- Carne.hpp: `Incarnated`, the incarnation counter of a class. A class may name a parent type,
-- whose counter is then increased as well; `depth` is the number of such types above the class.
pub mod Chain
pub mod Threads
pub mod Owed
pub mod Interleaving
pub mod Completion
pub mod Noticed
pub mod Parentless
mod Tests
use moose_tools.Prelude.{
  ℕ, zero, suc, ◌%◌, Bool, Option, none, some, ltb, next64, u64_mod, ◌==◌, if◌then◌else◌,
}

-- `m_incarnation` and `m_parent`; null is `none`.
pub record Incarnated : Type 0 where
  pub incarnation : ℕ
  pub parent : Option ℕ

-- The default constructor.
pub initial : Incarnated
initial = record { incarnation = 0; parent = none }

-- The constructor from a stored incarnation: an `int64_t` is given by its bit pattern.
pub stored : ℕ → Incarnated
stored n = record { incarnation = n % u64_mod; parent = none }

-- `changed`: the counter against a known one.
unfoldable pub changed : ℕ → ℕ → Bool
changed incarnation known = ltb known incarnation

-- The objects by address.
abbrev pub Heap : Type 0
Heap = ℕ → Incarnated

pub bump : Heap → ℕ → Heap
bump h a b = if a == b then record (h b) { incarnation = next64 (h b).incarnation } else h b

-- `increase_incarnation`; `none` is the failed assertion on a null parent.
pub increase_incarnation : ℕ → Heap → ℕ → Option Heap
increase_incarnation zero h a = some (bump h a)
increase_incarnation (suc depth) h a = elim (h a).parent [
  | none ↦ none
  | some p ↦ increase_incarnation depth (bump h a) p
]
