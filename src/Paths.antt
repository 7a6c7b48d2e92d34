-- ===== src/Paths.antt =====
-- FilesystemHelpers.cpp and Homedir.cpp. The path library is the parameter `PathLibrary`.
pub mod Containment
mod Tests
use moose_tools.Prelude.{
  ℕ, zero, suc, ◌≡◌, ◌≢◌, Bool, true, false, not, ◌&&◌, Option, none, some, List, [], ◌∷◌, Bytes,
  codes, ltb, ◌==◌, if◌then◌else◌, length,
}

-- Without its last element.
abbrev pub init {ℓ} : {A : Type ℓ} → List A → List A
init [] = []
init (x ∷ []) = []
init (x ∷ y ∷ xs) = x ∷ init (y ∷ xs)

-- The last element, or the empty text.
abbrev pub last_or_empty : List Bytes → Bytes
last_or_empty [] = []
last_or_empty (x ∷ []) = x
last_or_empty (x ∷ y ∷ xs) = last_or_empty (y ∷ xs)

-- `boost::filesystem::path` (version 3) by the components that its iterators show. A path that ends in
-- a slash and is not the root directory has a last component ".".
pub record PathLibrary : Type 1 where
  pub FsPath : Type 0
  pub components : FsPath → List Bytes
  pub filename : FsPath → Bytes
  pub remove_filename : FsPath → FsPath
  pub of_text : Bytes → FsPath
  -- `/`
  pub join : FsPath → FsPath → FsPath
  pub filename_lem : (p : FsPath) → filename p ≡ last_or_empty (components p)
  pub components-remove_filename :
      (p : FsPath) → components (remove_filename p) ≡ init (components p)

abbrev pub bytes_eq : Bytes → Bytes → Bool
bytes_eq [] [] = true
bytes_eq (c ∷ s) (d ∷ t) = c == d && bytes_eq s t
bytes_eq _ _ = false

-- `std::equal` from the beginning of two sequences, to the end of the first one; `none` where the
-- second ends before.
pub equal_range : List Bytes → List Bytes → Option Bool
equal_range [] ys = some true
equal_range (x ∷ xs) [] = none
equal_range (x ∷ xs) (y ∷ ys) =
    let rest = equal_range xs ys in if bytes_eq x y then rest else some false

module _ (F : PathLibrary) where
  -- A final "." of the directory is removed.
  without_dot : F.FsPath → F.FsPath
  without_dot dir = if bytes_eq (F.filename dir) (codes ".") then F.remove_filename dir else dir

  contained : List Bytes → List Bytes → Option Bool
  unfolding equal_range
  contained dir file = if ltb (length file) (length dir) then some false else equal_range dir file

  -- `none` is the failed assertion that the file has a name, or an access past the end.
  pub path_contains_file : F.FsPath → F.FsPath → Option Bool
  unfolding without_dot contained
  path_contains_file n_dir n_file =
      let dir = without_dot n_dir in
      let file = F.remove_filename n_file in
      if bytes_eq (F.filename n_file) []
      then none
      else contained (F.components dir) (F.components file)

  -- `getenv` of the two platforms.
  pub user_home_windows : (Bytes → Option Bytes) → F.FsPath
  user_home_windows getenv = elim (getenv (codes "USERPROFILE")) [
    | some userprofile ↦ F.of_text userprofile
    | none ↦ elim (getenv (codes "HOMEDRIVE")) [
      | none ↦ F.of_text (codes "C:\\")
      | some homedrive ↦ elim (getenv (codes "HOMEPATH")) [
        | none ↦ F.of_text (codes "C:\\")
        | some homepath ↦ F.join (F.of_text homedrive) (F.of_text homepath)
      ]
    ]
  ]

  pub user_home : (Bytes → Option Bytes) → F.FsPath
  user_home getenv = elim (getenv (codes "HOME")) [
    | some userhome ↦ F.of_text userhome
    | none ↦ F.of_text (codes "~")
  ]
