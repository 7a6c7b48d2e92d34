-- ===== src/Strings.antt =====
-- String.cpp: `truncate`, `itoa` and `mime_type_is_text`. The libraries' parts are parameters.
pub mod Laws
mod Tests
use moose_tools.Prelude.{
  ℕ, ◌+◌, ◌≤◌, ◌≡◌, refl, Bool, true, false, ◌&&◌, ◌||◌, List, [], ◌∷◌, ◌++◌, map, Bytes, codes,
  leb, ltb, ◌==◌, if◌then◌else◌, length, take, drop, length-take, arith,
}
use moose_tools.Mime.Libraries.{starts_with}
use moose_tools.Paths.{bytes_eq}

-- `resize` to a smaller length.
unfoldable pub truncate : Bytes → ℕ → Bytes
truncate string n = if ltb n (length string) then take n string else string

-- `karma::generate` with `ulong_long` appends the number's digits to the empty text.
pub itoa : (ℕ → Bytes) → ℕ → Bytes
itoa ulong_long n = [] ++ ulong_long n

-- `\w` of a regular expression in the C locale.
unfoldable is_word : ℕ → Bool
is_word c =
    (leb b'0' c && leb c b'9')
    || (leb b'A' c && leb c b'Z')
    || (leb b'a' c && leb c b'z')
    || c == b'_'

unfoldable all_word : Bytes → Bool
unfolding is_word
all_word [] = true
all_word (c ∷ s) = is_word c && all_word s

unfoldable pub to_lower : ℕ → ℕ
to_lower c = if leb b'A' c && leb c b'Z' then c + 32 else c

-- A text that the regular expression `^text\/\w+` matches.
unfoldable pub is_text_words : Bytes → Bool
unfolding all_word
is_text_words s = starts_with (codes "text/") s && ltb 0 (length (drop 5 s)) && all_word (drop 5 s)

-- `boost::algorithm::iequals` in the C locale, and `regex_match` of Boost.Xpressive, which matches a whole text with a
-- regular expression.
pub record Matching : Type 0 where
  pub iequals : Bytes → Bytes → Bool
  pub iequals_lem : (s t : Bytes) → iequals s t ≡ bytes_eq (map to_lower s) (map to_lower t)
  pub regex_match : Bytes → Bytes → Bool
  -- a literal beginning and a run of word characters
  pub regex_match_words : (s : Bytes) → regex_match (codes "^text\\/\\w+") s ≡ is_text_words s

module _ (R : Matching) where
  pub mime_type_is_text : Bytes → Bool
  mime_type_is_text string =
      if R.iequals string (codes "application/text")
      then true
      else R.regex_match (codes "^text\\/\\w+") string
