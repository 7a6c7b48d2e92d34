-- ===== src/UnitTests/Texts.antt =====
-- test/TestString.cpp: truncated texts and guessed mime types.
use moose_tools.Prelude.{◌≡◌, refl, true, [], ◌∷◌, Bytes, codes}
use moose_tools.Errors.{ok}
use moose_tools.Paths.{bytes_eq}
use moose_tools.Strings.{truncate}
use moose_tools.Mime.{
  mime_extension, mime_extension_from_path, of_extension, parsed, reverse, reverse_mimetype_symbols,
  mimetype_symbols,
}
use moose_tools.Mime.Libraries.{Symbols}
use moose_tools.Mime.Plain.{plain, small, best, better, found}
use moose_tools.UnitTests.{Checks, passes, all_hold}

-- The case `TruncateSimple`.
unfoldable truncate_simple : Checks
truncate_simple =
    let s = codes "Moose was here" in
    let s1 = truncate s 5 in
    let s2 = truncate s1 15 in
    let s3 = truncate s2 1 in
    let s4 = truncate s3 0 in
    ok (
      bytes_eq s1 (codes "Moose")
      ∷ bytes_eq s2 (codes "Moose")
      ∷ bytes_eq s3 (codes "M")
      ∷ bytes_eq s4 []
      ∷ [])

truncate_simple-passes : passes truncate_simple ≡ true
unfolding passes all_hold truncate_simple truncate
truncate_simple-passes = refl

module _ (I : Symbols) where
  -- The case `MimeTypeGuessString`.
  unfoldable mime_type_guess_string : Checks
  mime_type_guess_string = ok (
      bytes_eq (mime_extension I (codes "default")) (codes "application/text")
      ∷ bytes_eq (mime_extension I (codes "test.html")) (codes "text/html")
      ∷ bytes_eq (mime_extension I (codes "/longer/path/test.html")) (codes "text/html")
      ∷ bytes_eq (mime_extension I (codes "http://www.test.de/longer/path/test.ico"))
          (codes "image/vnd.microsoft.icon")
      ∷ [])

  -- The case `MimeTypeGuessPath`, with the path library's `extension` of a path's text.
  unfoldable mime_type_guess_path : (Bytes → Bytes) → Checks
  mime_type_guess_path extension = ok (
      bytes_eq (mime_extension_from_path I extension (codes "default")) (codes "application/text")
      ∷ bytes_eq (mime_extension_from_path I extension (codes "test.html")) (codes "text/html")
      ∷ bytes_eq (mime_extension_from_path I extension (codes "/longer/path/test.html"))
          (codes "text/html")
      ∷ bytes_eq (mime_extension_from_path I extension (codes "longer/path/test.ico"))
          (codes "image/vnd.microsoft.icon")
      ∷ [])

mime_type_guess_string-passes : passes (mime_type_guess_string plain) ≡ true
unfolding passes all_hold mime_type_guess_string mime_extension parsed reverse
    reverse_mimetype_symbols small best better plain found
mime_type_guess_string-passes = refl

-- The case passes if the path library finds the extensions of its four paths.
mime_type_guess_path-passes :
    (extension : Bytes → Bytes)
    → extension (codes "default") ≡ []
    → extension (codes "test.html") ≡ codes ".html"
    → extension (codes "/longer/path/test.html") ≡ codes ".html"
    → extension (codes "longer/path/test.ico") ≡ codes ".ico"
    → passes (mime_type_guess_path plain extension) ≡ true
unfolding passes all_hold mime_type_guess_path mime_extension_from_path of_extension parsed
    mimetype_symbols small best better plain found
mime_type_guess_path-passes extension e1 e2 e3 e4 = rw (e1, e2, e3, e4) refl
