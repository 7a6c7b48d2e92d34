-- ===== src/Paths/Tests.antt =====
-- The theorem and the home directory at concrete paths, which are lists of components.
use moose_tools.Prelude.{
  ◌≡◌, refl, Bool, true, if◌then◌else◌, Option, none, some, List, [], ◌∷◌, ◌++◌, Bytes, codes, ◌↔◌,
}
use moose_tools.Paths.{
  PathLibrary, init, last_or_empty, path_contains_file, user_home, user_home_windows, bytes_eq,
  without_dot, contained, equal_range,
}
use moose_tools.Paths.Containment.{directory, path_contains_file-components}

abbrev lists : PathLibrary
lists = record {
  FsPath = List Bytes;
  components = λ p. p;
  filename = last_or_empty;
  remove_filename = init;
  of_text = λ t. t ∷ [];
  join = λ p q. p ++ q;
  filename_lem = λ p. refl;
  components-remove_filename = λ p. refl;
}

-- "/a/"
abbrev dir : List Bytes
dir = codes "/" ∷ codes "a" ∷ codes "." ∷ []

-- "/a/../b/x"
abbrev file : List Bytes
file = codes "/" ∷ codes "a" ∷ codes ".." ∷ codes "b" ∷ codes "x" ∷ []

path_contains_file-components_example :
    (b : Bool) × (path_contains_file lists dir file ≡ some b)
    × ((b ≡ true) ↔ (
        (rest : List Bytes) × (codes "/" ∷ codes "a" ∷ codes ".." ∷ codes "b" ∷ []
          ≡ (codes "/" ∷ codes "a" ∷ []) ++ rest)))
unfolding directory
path_contains_file-components_example = path_contains_file-components lists dir file (λ e. cc)

dotdot_contained : path_contains_file lists dir file ≡ some true
unfolding path_contains_file equal_range without_dot contained
dotdot_contained = refl

abbrev drive : Bytes → Option Bytes
drive name =
    if bytes_eq name (codes "HOMEDRIVE")
    then some (codes "D:")
    else if bytes_eq name (codes "HOMEPATH")
    then some (codes "\\ada")
    else none

at_home : user_home_windows lists drive ≡ codes "D:" ∷ codes "\\ada" ∷ []
unfolding user_home_windows
at_home = refl

homeless : user_home lists drive ≡ codes "~" ∷ []
unfolding user_home
homeless = refl
