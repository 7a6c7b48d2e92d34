-- ===== src/Mime/Tables.antt =====
-- String.cpp: what the tables of mime types say of an extension.
use moose_tools.Prelude.{
  ℕ, zero, suc, ◌≤◌, ◌≡◌, refl, ap, Bool, true, false, not, some, [], ◌∷◌, ◌++◌, map, Bytes, length,
  get_elem?, ◌==◌, ◌&&◌, ◌||◌, arith, append-nil, append_assoc, ◌∙◌, sym, subst, Option-cases, inl,
  inr,
}
use moose_tools.Mime.Libraries.{Symbols, Table, IsEntry, starts_with}
use moose_tools.Mime.{
  reverse, rows, mimetype_symbols, reverse_mimetype_symbols, parsed, mime_extension, of_extension,
  mime_extension_from_path,
}

abbrev same : Bytes → Bytes → Bool
same [] [] = true
same (c ∷ s) (d ∷ t) = c == d && same s t
same _ _ = false

same_sound : (s t : Bytes) → same s t ≡ true → s ≡ t
same_sound [] [] h = refl
same_sound [] (d ∷ t) h = cc
same_sound (c ∷ s) [] h = cc
same_sound (c ∷ s) (d ∷ t) h = ground (arith, same_sound s t)

-- Every key of the table that is related to `k` has the value `a`.
unfoldable pub agree : (Bytes → Bytes → Bool) → Bytes → Bytes → Table → Bool
agree p k a [] = true
agree p k a ((k', a') ∷ t) = (not (p k k') || same a' a) && agree p k a t

agree-entry :
    (p : Bytes → Bytes → Bool) (k a k' a' : Bytes) (t : Table) (i : ℕ)
    → agree p k a t ≡ true
    → get_elem? t i ≡ some (k', a')
    → p k k' ≡ true
    → a' ≡ a
unfolding agree
agree-entry p k a k' a' [] i h e s = cc
agree-entry p k a k' a' ((k1, a1) ∷ t) zero h e s =
    let q : a1 ≡ a' = cc in
    let o : k1 ≡ k' = cc in
    let r : p k k1 ≡ true = subst (λ (b : Bytes). p k b ≡ true) (sym o) s in
    sym q ∙ same_sound a1 a (ground arith)
agree-entry p k a k' a' ((k1, a1) ∷ t) (suc i) h e s =
    agree-entry p k a k' a' t i (ground arith) e s

-- Of two keys that a text begins with, the longer begins with the shorter.
starts_with-longer :
    (k k' s : Bytes)
    → starts_with k s ≡ true
    → starts_with k' s ≡ true
    → length k ≤ length k'
    → starts_with k k' ≡ true
starts_with-longer [] k' s p q l = refl
starts_with-longer (c ∷ k) [] s p q l = absurd (omega arith)
starts_with-longer (c ∷ k) (d ∷ k') [] p q l = cc
starts_with-longer (c ∷ k) (d ∷ k') (x ∷ s) p q l = ground (arith, starts_with-longer k k' s)

starts_with-append : (k s : Bytes) → starts_with k (k ++ s) ≡ true
starts_with-append [] s = refl
starts_with-append (c ∷ k) s = ground (arith, starts_with-append k s)

clash : {b : Bool} → b ≡ true → b ≡ false → ⊥
clash p q = cc

reverse-append : (s t : Bytes) → reverse (s ++ t) ≡ reverse t ++ reverse s
unfolding reverse
reverse-append [] t = sym (append-nil (reverse t))
reverse-append (c ∷ s) t = rw (reverse-append s t) (append_assoc (reverse t) (reverse s) (c ∷ []))

map-append : (f : ℕ → ℕ) (s t : Bytes) → map f (s ++ t) ≡ map f s ++ map f t
map-append f [] t = refl
map-append f (c ∷ s) t = rw (map-append f s t) refl

map-reverse : (f : ℕ → ℕ) (s : Bytes) → map f (reverse s) ≡ reverse (map f s)
unfolding reverse
map-reverse f [] = refl
map-reverse f (c ∷ s) = rw (map-append f (reverse s) (c ∷ []), map-reverse f s) refl

get_elem?-map :
    (f : Bytes × Bytes → Bytes × Bytes) (t : Table) (i : ℕ) (r : Bytes × Bytes)
    → get_elem? t i ≡ some r
    → get_elem? (map f t) i ≡ some (f r)
get_elem?-map f [] i r e = cc
get_elem?-map f (x ∷ t) zero r e = cc
get_elem?-map f (x ∷ t) (suc i) r e = get_elem?-map f t i r e

reversed_row :
    (i : ℕ) (k a : Bytes)
    → get_elem? rows i ≡ some (k, a)
    → get_elem? reverse_mimetype_symbols i ≡ some (reverse (b'.' ∷ k), a)
unfolding reverse_mimetype_symbols
reversed_row i k a e =
    get_elem?-map (λ (r : Bytes × Bytes). (reverse (b'.' ∷ r.0), r.1)) rows i (k, a) e

-- Rows with related keys have the same type.
all_agree : (Bytes → Bytes → Bool) → Table → Table → Bool
unfolding agree
all_agree p t [] = true
all_agree p t ((k, a) ∷ u) = agree p k a t && all_agree p t u

all_agree-row :
    (p : Bytes → Bytes → Bool) (t u : Table) (i : ℕ) (k a : Bytes)
    → all_agree p t u ≡ true
    → get_elem? u i ≡ some (k, a)
    → agree p k a t ≡ true
unfolding all_agree
all_agree-row p t [] i k a h e = cc
all_agree-row p t ((k1, a1) ∷ u) zero k a h e =
    let q : (k1, a1) ≡ (k, a) = cc in
    subst (λ (r : Bytes × Bytes). agree p r.0 r.1 t ≡ true) q (ground arith)
all_agree-row p t (x ∷ u) (suc i) k a h e = all_agree-row p t u i k a (ground arith) e

reverse_symbols_agree :
    all_agree starts_with reverse_mimetype_symbols reverse_mimetype_symbols ≡ true
unfolding all_agree agree reverse_mimetype_symbols reverse
reverse_symbols_agree = refl

symbols_agree : all_agree same rows rows ≡ true
unfolding all_agree agree
symbols_agree = refl

same-starts_with :
    (k k' : Bytes) → starts_with k k' ≡ true → starts_with k' k ≡ true → same k k' ≡ true
same-starts_with [] [] p q = refl
same-starts_with [] (d ∷ k') p q = cc
same-starts_with (c ∷ k) [] p q = cc
same-starts_with (c ∷ k) (d ∷ k') p q = ground (arith, same-starts_with k k')

module _ (I : Symbols) where
  -- A key of the table whose related keys have the same value, where the longer keys that the text
  -- begins with are related: a text that begins with the key has its value.
  parsed-known :
      (p : Bytes → Bytes → Bool) (t : Table) (k a s rest : Bytes) (i : ℕ)
      → get_elem? t i ≡ some (k, a)
      → agree p k a t ≡ true
      → map I.lower s ≡ k ++ rest
      → ((k' : Bytes) → starts_with k k' ≡ true → starts_with k' (k ++ rest) ≡ true → p k k' ≡ true)
      → parsed I (I.no_case t s) ≡ a
  unfolding parsed
  parsed-known p t k a s rest i e g l related =
      let b : starts_with k (map I.lower s) ≡ true = rw l (starts_with-append k rest) in
      elim (Option-cases (I.no_case t s)) [
        | inl n ↦ absurd (clash b (I.no_case_none t s k a n (i, e)))
        | inr ((a', r), n) ↦
            let (k', (j, e'), b', longest) = I.no_case_sound t s a' r n in
            let b'' : starts_with k' (k ++ rest) ≡ true =
              subst (λ (u : Bytes). starts_with k' u ≡ true) l b' in
            rw n (
              agree-entry p k a k' a' t j g e' (
                related k' (starts_with-longer k k' (map I.lower s) b b' (longest k a (i, e) b))
                  b''))
      ]

  -- A path whose text, in small letters, ends in a dot and an extension of the table: `mime_extension`
  -- returns the extension's type.
  mime_extension-known :
      (path stem extension type : Bytes)
      → IsEntry extension type rows
      → map I.lower path ≡ stem ++ (b'.' ∷ extension)
      → mime_extension I path ≡ type
  unfolding mime_extension
  mime_extension-known path stem extension type (i, e) l =
      let row = reversed_row i extension type e in
      parsed-known starts_with reverse_mimetype_symbols (reverse (b'.' ∷ extension)) type
        (reverse path) (reverse stem) i row
        (all_agree-row starts_with reverse_mimetype_symbols reverse_mimetype_symbols i _ type
          reverse_symbols_agree row)
        (map-reverse I.lower path ∙ ap reverse l ∙ reverse-append stem (b'.' ∷ extension))
        (λ k' h _. h)

  -- A path whose extension, in small letters, is one of the table behind a dot:
  -- `mime_extension_from_path` returns its type.
  mime_extension_from_path-known :
      {FsPath : Type 0} (extension : FsPath → Bytes) (path : FsPath) (extstr key type : Bytes)
      → IsEntry key type rows
      → extension path ≡ b'.' ∷ extstr
      → map I.lower extstr ≡ key
      → mime_extension_from_path I extension path ≡ type
  unfolding mime_extension_from_path of_extension mimetype_symbols
  mime_extension_from_path-known extension path extstr key type (i, e) x l = rw x (
      parsed-known same rows key type extstr [] i e
        (all_agree-row same rows rows i key type symbols_agree e) (l ∙ sym (append-nil key))
        (λ k' h q.
          same-starts_with key k' h
            (subst (λ (u : Bytes). starts_with k' u ≡ true) (append-nil key) q)))

  -- If all extensions of the table that begin with one of them have its type, a path whose extension
  -- begins with this one, in any case and behind a dot, gets the type too, whatever follows in the
  -- extension.
  pub mime_extension_from_path-longer :
      {FsPath : Type 0} (extension : FsPath → Bytes) (path : FsPath) (extstr key type rest : Bytes)
      → IsEntry key type rows
      → agree starts_with key type rows ≡ true
      → extension path ≡ b'.' ∷ extstr
      → map I.lower extstr ≡ key ++ rest
      → mime_extension_from_path I extension path ≡ type
  unfolding mime_extension_from_path of_extension mimetype_symbols
  mime_extension_from_path-longer extension path extstr key type rest (i, e) g x l =
      rw x (parsed-known starts_with rows key type extstr rest i e g l (λ k' h _. h))
