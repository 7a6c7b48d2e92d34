-- ===== src/Endpoints/Libraries.antt =====
-- What String.cpp relies on of Boost.Spirit's parsers and of Boost.Asio's addresses. A parser takes a
-- text and, if it matches, returns its attribute and the rest.
use moose_tools.Prelude.{
  ℕ, ◌<◌, ◌^◌, ◌≡◌, ◌≢◌, Bool, true, false, Option, none, some, [], ◌∷◌, ◌++◌, Bytes, All, leb,
  ◌&&◌, ◌||◌, ◌==◌,
}

abbrev pub is_digit : ℕ → Bool
is_digit c = leb b'0' c && leb c b'9'

-- A text where a run of characters of a class ends.
abbrev pub Stops : (ℕ → Bool) → Bytes → Type 0
Stops p [] = Unit
Stops p (c ∷ _) = p c ≡ false

-- Every character is of the class.
abbrev pub IsIn : (ℕ → Bool) → Bytes → Type 0
IsIn p = All (λ c. p c ≡ true)

pub record Spirit : Type 0 where
  -- a literal
  pub lit : Bytes → Bytes → Option Bytes
  -- `+char_(set)`
  pub plus_char : (ℕ → Bool) → Bytes → Option (Bytes × Bytes)
  -- `uint_`, for a 32-bit `unsigned int`
  pub uint_ : Bytes → Option (ℕ × Bytes)
  pub lit_complete : (s r : Bytes) → lit s (s ++ r) ≡ some r
  pub lit_sound : (s t r : Bytes) → lit s t ≡ some r → t ≡ s ++ r
  -- the longest run, which is not empty
  pub plus_char_complete :
      (p : ℕ → Bool) (w r : Bytes)
      → w ≢ []
      → IsIn p w
      → Stops p r
      → plus_char p (w ++ r) ≡ some (w, r)
  pub plus_char_sound :
      (p : ℕ → Bool) (t w r : Bytes) → plus_char p t ≡ some (w, r) → (t ≡ w ++ r) × IsIn p w
  pub plus_char_none : (p : ℕ → Bool) (t : Bytes) → Stops p t → plus_char p t ≡ none
  pub uint_bound : (t : Bytes) (n : ℕ) (r : Bytes) → uint_ t ≡ some (n, r) → n < 2 ^ 32

-- `address_v4` and `address_v6` with `make_address_…`, whose exception is `none`, and their texts.
pub record Addresses (S : Spirit) : Type 1 where
  pub V4 : Type 0
  pub V6 : Type 0
  pub make_v4 : Bytes → Option V4
  pub make_v6 : Bytes → Option V6
  pub show_v4 : V4 → Bytes
  pub show_v6 : V6 → Bytes
  pub show_port : ℕ → Bytes
  pub scope_id : V6 → ℕ
  pub make-show_v4 : (a : V4) → make_v4 (show_v4 a) ≡ some a
  pub make-show_v6 : (a : V6) → make_v6 (show_v6 a) ≡ some a
  -- digits and dots, of which there are some
  pub show_v4_head : (a : V4) → (c : ℕ) × (cs : Bytes) × (show_v4 a ≡ c ∷ cs)
  pub show_v4_chars : (a : V4) → IsIn (λ c. is_digit c || c == b'.') (show_v4 a)
  -- only the text of a scoped address has a character besides these
  pub show_v6_head : (a : V6) → (c : ℕ) × (cs : Bytes) × (show_v6 a ≡ c ∷ cs)
  pub show_v6_chars :
      (a : V6)
      → scope_id a ≡ 0
      → IsIn (λ c. is_digit c || (leb b'a' c && leb c b'f') || c == b':' || c == b'.') (show_v6 a)
  pub uint_-show_port : (n : ℕ) → n < 2 ^ 16 → S.uint_ (show_port n) ≡ some (n, [])
