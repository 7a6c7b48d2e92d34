-- ===== src/Mime.antt =====
-- String.cpp: the mime types of file name extensions.
pub mod Libraries
pub mod Tables
pub mod Plain
mod Tests
use moose_tools.Prelude.{ℕ, Bool, Option, none, some, List, [], ◌∷◌, ◌++◌, map, Bytes, codes}
use Libraries.{Symbols, Table}

unfoldable pub reverse : Bytes → Bytes
reverse [] = []
reverse (c ∷ s) = reverse s ++ (c ∷ [])

-- The rows of `mimetype_symbols_type`; those of `reverse_mimetype_symbols_type` have a dot before.
abbrev pub rows : Table
rows =
    (codes "htm", codes "text/html")
    ∷ (codes "html", codes "text/html")
    ∷ (codes "php", codes "text/html")
    ∷ (codes "css", codes "text/css")
    ∷ (codes "txt", codes "text/plain")
    ∷ (codes "js", codes "application/javascript")
    ∷ (codes "json", codes "application/json")
    ∷ (codes "xml", codes "application/xml")
    ∷ (codes "swf", codes "application/x-shockwave-flash")
    ∷ (codes "flv", codes "video/x-flv")
    ∷ (codes "png", codes "image/png")
    ∷ (codes "jpe", codes "image/jpeg")
    ∷ (codes "jpeg", codes "image/jpeg")
    ∷ (codes "jpg", codes "image/jpeg")
    ∷ (codes "gif", codes "image/gif")
    ∷ (codes "bmp", codes "image/bmp")
    ∷ (codes "ico", codes "image/vnd.microsoft.icon")
    ∷ (codes "tiff", codes "image/tiff")
    ∷ (codes "tif", codes "image/tiff")
    ∷ (codes "svg", codes "image/svg+xml")
    ∷ (codes "svgz", codes "image/svg+xml")
    ∷ []

-- `mimetype_symbols_type`
unfoldable pub mimetype_symbols : Table
mimetype_symbols = rows

-- `reverse_mimetype_symbols_type`
unfoldable pub reverse_mimetype_symbols : Table
unfolding reverse
reverse_mimetype_symbols = map (λ (r : Bytes × Bytes). (reverse (b'.' ∷ r.0), r.1)) rows

abbrev pub default_type : Bytes
default_type = codes "application/text"

module _ (I : Symbols) where
  -- `qi::parse` of `no_case[symbols] >> eoi` with the attribute `ret`: the symbol's value is assigned
  -- when it matches, and stays when the end of input is then not there.
  unfoldable pub parsed : Option (Bytes × Bytes) → Bytes
  parsed none = default_type
  parsed (some (ret, rest)) = ret

  unfoldable pub mime_extension : Bytes → Bytes
  unfolding parsed reverse reverse_mimetype_symbols
  mime_extension path = parsed (I.no_case reverse_mimetype_symbols (reverse path))

  -- The `extension` of a path, as the path library yields it, begins with the dot or is empty.
  unfoldable pub of_extension : Bytes → Bytes
  unfolding parsed mimetype_symbols
  of_extension [] = default_type
  of_extension (dot ∷ extstr) = parsed (I.no_case mimetype_symbols extstr)

  unfoldable pub mime_extension_from_path : {FsPath : Type 0} → (FsPath → Bytes) → FsPath → Bytes
  unfolding of_extension
  mime_extension_from_path extension path = of_extension (extension path)
