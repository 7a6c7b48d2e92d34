-- ===== src/Paths/Containment.antt =====
-- FilesystemHelpers.cpp: what `path_contains_file` finds.
use moose_tools.Prelude.{
  ◌≤◌, ◌≡◌, ◌≢◌, refl, ap, sym, subst, ◌∙◌, ◌↔◌, inl, inr, Bool, true, false, some, List, [], ◌∷◌,
  ◌++◌, Bytes, codes, ltb, if◌then◌else◌, length, length-append, arith, Bool-cases,
}
use moose_tools.Paths.{
  init, last_or_empty, PathLibrary, bytes_eq, equal_range, without_dot, contained,
  path_contains_file,
}

pub bytes_eq_sound : (s t : Bytes) → bytes_eq s t ≡ true → s ≡ t
bytes_eq_sound [] [] h = refl
bytes_eq_sound [] (d ∷ t) h = cc
bytes_eq_sound (c ∷ s) [] h = cc
bytes_eq_sound (c ∷ s) (d ∷ t) h = ground (arith, bytes_eq_sound s t)

pub bytes_eq_refl : (s : Bytes) → bytes_eq s s ≡ true
bytes_eq_refl [] = refl
bytes_eq_refl (c ∷ s) = ground (arith, bytes_eq_refl s)

-- The components of a directory: without a final ".".
unfoldable pub directory : List Bytes → List Bytes
directory cs = if bytes_eq (last_or_empty cs) (codes ".") then init cs else cs

equal_range_prefix : (xs rest : List Bytes) → equal_range xs (xs ++ rest) ≡ some true
unfolding equal_range
equal_range_prefix [] rest = refl
equal_range_prefix (x ∷ xs) rest = rw (bytes_eq_refl x) (equal_range_prefix xs rest)

equal_range_sound :
    (xs ys : List Bytes) → equal_range xs ys ≡ some true → (rest : List Bytes) × (ys ≡ xs ++ rest)
unfolding equal_range
equal_range_sound [] ys h = (ys, refl)
equal_range_sound (x ∷ xs) [] h = absurd cc
equal_range_sound (x ∷ xs) (y ∷ ys) h = elim (Bool-cases (bytes_eq x y)) [
  | inl e ↦
      let (rest, r) = equal_range_sound xs ys (ground arith) in
      let f = bytes_eq_sound x y e in (rest, cc)
  | inr e ↦ absurd (ground arith)
]

-- Where the second sequence is long enough, nothing past its end is read.
equal_range_in_range :
    (xs ys : List Bytes) → length xs ≤ length ys → (b : Bool) × (equal_range xs ys ≡ some b)
unfolding equal_range
equal_range_in_range [] ys h = (true, refl)
equal_range_in_range (x ∷ xs) [] h = absurd (omega arith)
equal_range_in_range (x ∷ xs) (y ∷ ys) h = elim (Bool-cases (bytes_eq x y)) [
  | inl e ↦ let (b, r) = equal_range_in_range xs ys (omega arith) in (b, rw e r)
  | inr e ↦ (false, rw e refl)
]

clash : false ≡ true → ⊥
clash h = cc

some_inj : {a b : Bool} → some a ≡ some b → a ≡ b
some_inj e = cc

not_empty : (s : Bytes) → s ≢ [] → bytes_eq s [] ≡ false
not_empty [] h = absurd (h refl)
not_empty (c ∷ s) h = refl

module _ (F : PathLibrary) where
  contained_lem :
      (xs ys : List Bytes)
      → (b : Bool) × (contained F xs ys ≡ some b)
        × ((b ≡ true) ↔ ((rest : List Bytes) × (ys ≡ xs ++ rest)))
  unfolding contained
  contained_lem xs ys = elim (Bool-cases (ltb (length ys) (length xs))) [
    | inl short ↦ (
      false,
      rw short refl,
      (
        λ h. absurd (clash h),
        λ (rest, e). absurd (ground (arith, length-append xs rest, ap (length {A = Bytes}) e)),
      ),
    )
    | inr long ↦
        let (b, r) = equal_range_in_range xs ys (ground arith) in
        (
          b,
          rw long r,
          (
            λ h. equal_range_sound xs ys (r ∙ ap some h),
            λ (rest, e). some_inj (
                sym r
                ∙ subst (λ (zs : List Bytes). equal_range xs zs ≡ some true) (sym e)
                    (equal_range_prefix xs rest)),
          ),
        )
  ]

  components-without_dot :
      (d : F.FsPath) → F.components (without_dot F d) ≡ directory (F.components d)
  unfolding without_dot directory
  components-without_dot d = ground (arith, F.filename_lem d, F.components-remove_filename d)

  -- For a file with a name, `path_contains_file` reads nothing past an end, and returns true exactly if
  -- the components of the directory, without a final ".", are the first ones of the file's directory.
  pub path_contains_file-components :
      (d f : F.FsPath)
      → F.filename f ≢ []
      → (b : Bool) × (path_contains_file F d f ≡ some b)
        × ((b ≡ true)
            ↔ ((rest : List Bytes) × (init (F.components f) ≡ directory (F.components d) ++ rest)))
  unfolding path_contains_file
  path_contains_file-components d f h =
      rw (components-without_dot d, F.components-remove_filename f, not_empty (F.filename f) h)
        (contained_lem (directory (F.components d)) (init (F.components f)))
