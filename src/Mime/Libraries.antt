-- ===== src/Mime/Libraries.antt =====
-- What String.cpp relies on of Boost.Spirit's symbol tables.
use moose_tools.Prelude.{
  ℕ, ◌≤◌, ◌≡◌, Bool, true, false, Option, none, some, List, [], ◌∷◌, map, Bytes, length, get_elem?,
  ◌==◌, ◌&&◌,
}

abbrev pub starts_with : Bytes → Bytes → Bool
starts_with [] s = true
starts_with (c ∷ k) [] = false
starts_with (c ∷ k) (x ∷ s) = c == x && starts_with k s

abbrev pub Table : Type 0
Table = List (Bytes × Bytes)

abbrev pub IsEntry : Bytes → Bytes → Table → Type 0
IsEntry k a t = (i : ℕ) × (get_elem? t i ≡ some (k, a))

-- `no_case[symbols]`, for a table of keys in small letters, at the start of a text: the longest key
-- that the text begins with, whatever its case; its value and the rest.
pub record Symbols : Type 0 where
  pub lower : ℕ → ℕ
  pub no_case : Table → Bytes → Option (Bytes × Bytes)
  pub no_case_sound :
      (t : Table) (s a rest : Bytes)
      → no_case t s ≡ some (a, rest)
      → (k : Bytes) × IsEntry k a t
        × (starts_with k (map lower s) ≡ true)
        × ((k' a' : Bytes)
            → IsEntry k' a' t
            → starts_with k' (map lower s) ≡ true
            → length k' ≤ length k)
  pub no_case_none :
      (t : Table) (s k a : Bytes)
      → no_case t s ≡ none
      → IsEntry k a t
      → starts_with k (map lower s) ≡ false
