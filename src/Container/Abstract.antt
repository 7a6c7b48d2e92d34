-- ===== src/Container/Abstract.antt =====
-- IdTaggedContainer.hpp: containers up to operator==, which looks at the ids only.
use moose_tools.Prelude.{
  ℕ, ◌≡◌, refl, ap, sym, ◌∙◌, Bool, true, false, not, Option, none, some, List, [], ◌∷◌, map, arith,
  ◌==◌, if◌then◌else◌,
}
use mathlib.Core.Quot
use mathlib.Core.Quot.{Quot, Quot-set}
use mathlib.Core.Path.{fun_ext, ap₂}
use moose_tools.Container.Index.{MultiIndex}
use moose_tools.Container.{Container, has, equals}
use moose_tools.Container.View.{has_lem}
use moose_tools.Container.Equality.{equals-has}
use moose_tools.Container.Refinement.{
  is_some, specified, known, step-specified, view, Call, inserts, replaces, removes, clears, step,
  run, IsValid, step-IsValid, run-IsValid,
}

module _ {T : Type 0} {id : T → ℕ} (M : MultiIndex id) where
  -- What has answers after a call, from what it answered before.
  abbrev told : (ℕ → Bool) → Call T → ℕ → Bool
  told f (inserts none) k = f k
  told f (inserts (some o)) k = if id o == k then true else f k
  told f (replaces none) k = f k
  told f (replaces (some o)) k = if id o == k then true else f k
  told f (removes j) k = if j == k then false else f k
  told f clears k = false

  abbrev answer : (ℕ → Bool) → Call T → Option Bool
  answer f (inserts none) = none
  answer f (inserts (some o)) = some (not (f (id o)))
  answer f (replaces none) = none
  answer f (replaces (some o)) = some (f (id o))
  answer f (removes j) = some (f j)
  answer f clears = none

  has-view : (c : Container M) (k : ℕ) → has M c k ≡ is_some id (view M c k)
  has-view c k = has_lem M c k ∙ sym (known M c k)

  specified-told :
      (m : ℕ → Option T) (call : Call T)
      → ((k : ℕ) → is_some id ((specified id m call).0 k) ≡ told (λ j. is_some id (m j)) call k)
        × ((specified id m call).1 ≡ answer (λ j. is_some id (m j)) call)
  unfolding specified
  specified-told m (inserts none) = (λ k. refl, refl)
  specified-told m (inserts (some o)) = (λ k. ground arith, ground arith)
  specified-told m (replaces none) = (λ k. refl, refl)
  specified-told m (replaces (some o)) = (λ k. ground arith, refl)
  specified-told m (removes j) = (λ k. ground arith, refl)
  specified-told m clears = (λ k. refl, refl)

  step-told :
      (c : Container M) (call : Call T)
      → IsValid M c
      → ((k : ℕ) → has M (step M c call).0 k ≡ told (has M c) call k)
        × ((step M c call).1 ≡ answer (has M c) call)
  step-told c call v =
      let (e, b) = step-specified M c call v in
      let (f, d) = specified-told (view M c) call in
      let same : has M c ≡ (λ j. is_some id (view M c j)) = fun_ext (has-view c) in
      (
        λ k.
            has-view (step M c call).0 k
            ∙ ap (λ m. is_some id (m k)) e
            ∙ f k
            ∙ ap (λ h. told h call k) (sym same),
        b ∙ d ∙ ap (λ h. answer h call) (sym same),
      )

  -- Containers that have the same ids.
  abbrev Agree : Container M → Container M → Type 0
  Agree c d = (k : ℕ) → has M c k ≡ has M d k

  step-Agree :
      (c d : Container M) (call : Call T)
      → IsValid M c
      → IsValid M d
      → Agree c d
      → Agree (step M c call).0 (step M d call).0 × ((step M c call).1 ≡ (step M d call).1)
  step-Agree c d call v w a =
      let (f, r) = step-told c call v in
      let (g, s) = step-told d call w in
      let same : has M c ≡ has M d = fun_ext a in
      (
        λ k. f k ∙ ap (λ h. told h call k) same ∙ sym (g k),
        r ∙ ap (λ h. answer h call) same ∙ sym s,
      )

  run-Agree :
      (c d : Container M) (calls : List (Call T))
      → IsValid M c
      → IsValid M d
      → Agree c d
      → Agree (run M c calls).0 (run M d calls).0 × ((run M c calls).1 ≡ (run M d calls).1)
  unfolding run
  run-Agree c d [] v w a = (a, refl)
  run-Agree c d (call ∷ calls) v w a =
      let (a', r) = step-Agree c d call v w a in
      let (agree, rs) =
        run-Agree (step M c call).0 (step M d call).0 calls (step-IsValid M c call v)
          (step-IsValid M d call w) a' in
      (agree, ap₂ ◌∷◌ r rs)

  -- For two containers without doubled ids that are equal by `operator==`: after the same calls on both
  -- they are equal again, and have given the same answers.
  pub run-equals :
      (c d : Container M) (calls : List (Call T))
      → IsValid M c
      → IsValid M d
      → equals M c d ≡ true
      → (equals M (run M c calls).0 (run M d calls).0 ≡ true)
        × ((run M c calls).1 ≡ (run M d calls).1)
  run-equals c d calls v w e =
      let (agree, rs) = run-Agree c d calls v w ((equals-has M c d v w).0 e) in
      (
        (equals-has M (run M c calls).0 (run M d calls).0 (run-IsValid M c calls v)
              (run-IsValid M d calls w)).1
            agree,
        rs,
      )

  -- The type of the containers without doubled ids, up to what ids they have.
  abbrev pub Valid : Type 0
  Valid = (c : Container M) × IsValid M c

  abbrev pub Ids : Type 0
  Ids = Quot (λ (x y : Valid). Agree x.0 y.0)

  contains : Ids → ℕ → Bool
  contains = Quot.lift (hlevel) (λ x. has M x.0) (λ x y h. fun_ext h)

  -- A call on such a container.
  called : Call T → Ids → Ids
  called call =
      Quot.lift Quot-set (λ x. Quot.mk ((step M x.0 call).0, step-IsValid M x.0 call x.1))
        (λ x y h. Quot.sound (step-Agree x.0 y.0 call x.1 y.1 h).0)

  called_all : List (Call T) → Ids → Ids
  unfolding called
  called_all [] i = i
  called_all (call ∷ calls) i = called_all calls (called call i)

  -- The insertion of each object of a list.
  abbrev pub insertions : List T → List (Call T)
  insertions os = map (λ o. inserts (some o)) os
