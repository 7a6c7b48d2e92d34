-- ===== src/Container/Refinement.antt =====
-- The container against its abstract specification, a map from ids to objects.
use mathlib.Core.Path.{fun_ext}
use moose_tools.Prelude.{
  ℕ, ◌≡◌, refl, ap, Bool, true, false, Option, none, some, List, [], ◌∷◌, arith, ◌==◌,
  if◌then◌else◌, Bool-cases, inl, inr, ◌∙◌, sym,
}
use moose_tools.Container.Ids.{
  ids, Distinct, find_id, remove_id, find_id-append_one, find_id-remove_id, find_id-count,
  count-remove_id, remove_id-Distinct, append_one-Distinct,
}
use moose_tools.Container.Index.{MultiIndex}
use moose_tools.Errors.{thrown}
use moose_tools.Container.{Container, create, null_pointer, get, insert, replace, remove, clear}
use moose_tools.Container.View.{
  after, reply, seq, holds, get_lem, insert_lem, replace_lem, remove_lem, clear_lem,
}

-- The calls that change a container; a pointer may be null.
pub data Call (T : Type 0) : Type 0 where
  inserts : Option T → Call T
  replaces : Option T → Call T
  removes : ℕ → Call T
  clears : Call T

module _ {T : Type 0} (id : T → ℕ) where
  abbrev Map : Type 0
  Map = ℕ → Option T

  abbrev pub is_some : Option T → Bool
  is_some none = false
  is_some (some _) = true

  abbrev put : Map → T → Map
  put m o = λ k. if id o == k then some o else m k

  abbrev unset : Map → ℕ → Map
  unset m j = λ k. if j == k then none else m k

  -- What a map of objects does on a call, and what it answers; an exception changes nothing.
  unfoldable pub specified : Map → Call T → Map × Option Bool
  specified m (inserts none) = (m, none)
  specified m (inserts (some o)) =
      if is_some (m (id o)) then (m, some false) else (put m o, some true)
  specified m (replaces none) = (m, none)
  specified m (replaces (some o)) = (put m o, some (is_some (m (id o))))
  specified m (removes k) = (unset m k, some (is_some (m k)))
  specified m clears = (λ _. none, none)

  pub specified_run : Map → List (Call T) → Map × List (Option Bool)
  specified_run m [] = (m, [])
  specified_run m (call ∷ calls) =
      let (m', b) = specified m call in let (m'', bs) = specified_run m' calls in (m'', b ∷ bs)

module _ {T : Type 0} {id : T → ℕ} (M : MultiIndex id) where
  unfoldable pub step : Container M → Call T → Container M × Option Bool
  step c (inserts p) = (after c (insert M c p), reply (insert M c p))
  step c (replaces p) = (after c (replace M c p), reply (replace M c p))
  step c (removes k) = let (c', b) = remove M c k in (c', some b)
  step c clears = (clear M c, none)

  unfoldable pub run : Container M → List (Call T) → Container M × List (Option Bool)
  run c [] = (c, [])
  run c (call ∷ calls) = let (c', b) = step c call in let (c'', bs) = run c' calls in (c'', b ∷ bs)

  -- No id stands twice in the container.
  abbrev pub IsValid : Container M → Type 0
  IsValid c = Distinct (ids id (seq M c))

  holds-find : (c : Container M) (k : ℕ) → holds M c k ≡ is_some id (find_id id k (seq M c))
  holds-find c k = ground (arith, find_id-count id k (seq M c))

  insert-IsValid : (c : Container M) (o : T) → IsValid c → IsValid (after c (insert M c (some o)))
  insert-IsValid c o v = ground (arith, insert_lem M c o, append_one-Distinct id (seq M c) o v)

  pub null_insert : (c : Container M) → insert M c none ≡ thrown null_pointer
  unfolding insert
  null_insert c = refl

  pub null_replace : (c : Container M) → replace M c none ≡ thrown null_pointer
  unfolding replace
  null_replace c = refl

  replace-IsValid : (c : Container M) (o : T) → IsValid c → IsValid (after c (replace M c (some o)))
  replace-IsValid c o v = rw (replace_lem M c o v).1 (
      append_one-Distinct id (remove_id id (id o) (seq M c)) o
        (remove_id-Distinct id (id o) (seq M c) v)
        (ground (arith, count-remove_id id (id o) (id o) (seq M c))))

  -- Every call keeps the ids distinct.
  pub step-IsValid : (c : Container M) (call : Call T) → IsValid c → IsValid (step c call).0
  unfolding step
  step-IsValid c (inserts none) v = rw null_insert v
  step-IsValid c (inserts (some o)) v = insert-IsValid c o v
  step-IsValid c (replaces none) v = rw null_replace v
  step-IsValid c (replaces (some o)) v = replace-IsValid c o v
  step-IsValid c (removes k) v = rw (remove_lem M c k v).1 (remove_id-Distinct id k (seq M c) v)
  step-IsValid c clears v = rw (clear_lem M c).0 tt

  get-insert :
      (c : Container M) (o : T) (k : ℕ)
      → find_id id k (seq M (after c (insert M c (some o)))) ≡ (
          if holds M c (id o)
          then find_id id k (seq M c)
          else if id o == k
          then some o
          else find_id id k (seq M c))
  get-insert c o k = ground (arith, insert_lem M c o, find_id-append_one id k (seq M c) o)

  get-replace :
      (c : Container M) (o : T) (k : ℕ)
      → IsValid c
      → find_id id k (seq M (after c (replace M c (some o))))
        ≡ (if id o == k then some o else find_id id k (seq M c))
  get-replace c o k v = rw (replace_lem M c o v).1 (
      ground (
        arith,
        find_id-append_one id k (remove_id id (id o) (seq M c)) o,
        count-remove_id id (id o) (id o) (seq M c),
        find_id-remove_id id (id o) k (seq M c),
      ))

  -- The container as a map.
  abbrev pub view : Container M → Map id
  view c = get M c

  view_lem : (c : Container M) → view c ≡ (λ k. find_id id k (seq M c))
  view_lem c = fun_ext (get_lem M c)

  pub known : (c : Container M) (k : ℕ) → is_some id (get M c k) ≡ holds M c k
  known c k = rw get_lem (sym (holds-find c k))

  -- Each call does to the map what the specification says, and answers as it says.
  pub step-specified :
      (c : Container M) (call : Call T)
      → IsValid c
      → (view (step c call).0 ≡ (specified id (view c) call).0)
        × ((step c call).1 ≡ (specified id (view c) call).1)
  unfolding step specified
  step-specified c (inserts none) v = rw null_insert (refl, refl)
  step-specified c (inserts (some o)) v = elim (Bool-cases (holds M c (id o))) [
    | inl e ↦
        rw (known c (id o), e)
          (fun_ext (λ k. simp get_lem (rw e at (get-insert c o k))), rw e at ((insert_lem M c o).0))
    | inr e ↦
        rw (known c (id o), e)
          (fun_ext (λ k. simp get_lem (rw e at (get-insert c o k))), rw e at ((insert_lem M c o).0))
  ]
  step-specified c (replaces none) v = rw null_replace (refl, refl)
  step-specified c (replaces (some o)) v = (
    fun_ext (λ k. simp get_lem (get-replace c o k v)),
    simp get_lem ((replace_lem M c o v).0 ∙ ap some (holds-find c (id o))),
  )
  step-specified c (removes k) v = (
    fun_ext (λ j. simp (get_lem, (remove_lem M c k v).1) (find_id-remove_id id k j (seq M c))),
    simp get_lem (ap some ((remove_lem M c k v).0 ∙ holds-find c k)),
  )
  step-specified c clears v =
      (fun_ext (λ k. simp (get_lem, (clear_lem M c).0) (unfold find_id in refl)), refl)

  create-IsValid : IsValid (create M)
  unfolding create
  create-IsValid = rw M.by_random-empty tt

  -- From a container without a doubled id, any calls leave one without a doubled id.
  pub run-IsValid : (c : Container M) (calls : List (Call T)) → IsValid c → IsValid (run c calls).0
  unfolding run
  run-IsValid c [] v = v
  run-IsValid c (call ∷ calls) v = run-IsValid (step c call).0 calls (step-IsValid c call v)

  -- From a container without a doubled id, any calls have the effect on the map from ids to objects,
  -- and the answers, that a map of objects has: the container refines that map.
  pub run-specified :
      (c : Container M) (calls : List (Call T))
      → IsValid c
      → (view (run c calls).0 ≡ (specified_run id (view c) calls).0)
        × ((run c calls).1 ≡ (specified_run id (view c) calls).1)
  unfolding run specified_run
  run-specified c [] v = (refl, refl)
  run-specified c (call ∷ calls) v =
      let (e, b) = step-specified c call v in
      let (es, bs) = run-specified (step c call).0 calls (step-IsValid c call v) in
      rw (← e, ← b) (es, ap (◌∷◌ (step c call).1) bs)
