-- ===== src/Mime/Tests.antt =====
-- The theorems at concrete paths.
use moose_tools.Prelude.{◌≡◌, refl, codes, Bytes}
use moose_tools.Mime.{mime_extension_from_path}
use moose_tools.Mime.Plain.{plain, small}
use moose_tools.Mime.Tables.{agree, mime_extension_from_path-longer}

-- A path that is its own extension.
abbrev itself : Bytes → Bytes
itself path = path

mime_extension_from_path-longer_example :
    mime_extension_from_path plain itself (codes ".jpg_old") ≡ codes "image/jpeg"
unfolding plain small agree
mime_extension_from_path-longer_example =
    mime_extension_from_path-longer plain itself (codes ".jpg_old") (codes "jpg_old") (codes "jpg")
      (codes "image/jpeg") (codes "_old") (13, refl) refl refl refl
