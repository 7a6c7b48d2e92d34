-- ===== src/Strings/Tests.antt =====
-- Texts cut and classified.
use moose_tools.Prelude.{◌≡◌, refl, true, false, codes}
use moose_tools.Strings.{truncate, is_text_words}

cut : truncate (codes "truncated") 5 ≡ codes "trunc"
unfolding truncate
cut = refl

not_cut : truncate (codes "text") 5 ≡ codes "text"
unfolding truncate
not_cut = refl

plain_text : is_text_words (codes "text/plain") ≡ true
unfolding is_text_words
plain_text = refl

-- A text type with another character is none.
vcard : is_text_words (codes "text/x-vcard") ≡ false
unfolding is_text_words
vcard = refl
