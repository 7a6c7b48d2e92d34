-- ===== src/Strings/Laws.antt =====
-- String.cpp: a truncated text, and which mime types are texts.
use moose_tools.Prelude.{
  ℕ, zero, suc, ◌≤◌, ◌≡◌, refl, ap, Bool, true, false, ◌&&◌, some, [], ◌∷◌, Bytes, codes, ltb,
  length, take, get_elem?, map, if◌then◌else◌, arith, ◌∙◌, sym, Bool-cases, inl, inr,
}
use moose_tools.Paths.{bytes_eq}
use moose_tools.Mime.{rows, default_type}
use moose_tools.Mime.Libraries.{Table, IsEntry, starts_with}
use moose_tools.Strings.{truncate, Matching, mime_type_is_text, is_text_words, to_lower}

take_whole : (s : Bytes) (n : ℕ) → length s ≤ n → take n s ≡ s
take_whole [] zero h = refl
take_whole [] (suc n) h = refl
take_whole (c ∷ s) zero h = absurd (omega arith)
take_whole (c ∷ s) (suc n) h = ap (◌∷◌ c) (take_whole s n (omega arith))

-- A truncated text is its beginning of at most the length.
truncate-take : (string : Bytes) (n : ℕ) → truncate string n ≡ take n string
unfolding truncate
truncate-take string n = elim (Bool-cases (ltb n (length string))) [
  | inl long ↦ rw long refl
  | inr short ↦ rw short (sym (take_whole string n (ground arith)))
]

-- What `mime_type_is_text` finds, with the libraries' parts computed.
decided : Bytes → Bool
decided s = if bytes_eq (map to_lower s) (map to_lower default_type) then true else is_text_words s

all_rows : (Bytes → Bool) → Table → Bool
all_rows p [] = true
all_rows p ((k, a) ∷ t) = p a && all_rows p t

agrees : Bytes → Bool
agrees a =
    if decided a
    then starts_with (codes "text/") a
    else if starts_with (codes "text/") a
    then false
    else true

rows_agree : all_rows agrees rows ≡ true
unfolding all_rows agrees decided is_text_words to_lower
rows_agree = refl

all_rows-entry :
    (p : Bytes → Bool) (t : Table) (i : ℕ) (k a : Bytes)
    → all_rows p t ≡ true
    → get_elem? t i ≡ some (k, a)
    → p a ≡ true
unfolding all_rows
all_rows-entry p [] i k a h e = cc
all_rows-entry p ((k1, a1) ∷ t) zero k a h e = let q : a1 ≡ a = cc in rw (← q) (ground arith)
all_rows-entry p (r ∷ t) (suc i) k a h e = all_rows-entry p t i k a (ground arith) e

module _ (R : Matching) where
  mime_type_is_text-decided : (s : Bytes) → mime_type_is_text R s ≡ decided s
  unfolding mime_type_is_text decided
  mime_type_is_text-decided s =
      rw (R.iequals_lem s (codes "application/text"), R.regex_match_words s) refl

  -- Of the types in the table of extensions, `mime_type_is_text` holds exactly for those that begin with
  -- "text/".
  mime_type_is_text_row :
      (k a : Bytes) → IsEntry k a rows → mime_type_is_text R a ≡ starts_with (codes "text/") a
  unfolding agrees
  mime_type_is_text_row k a (i, e) =
      mime_type_is_text-decided a ∙ ground (arith, all_rows-entry agrees rows i k a rows_agree e)
