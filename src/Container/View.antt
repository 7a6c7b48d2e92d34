-- ===== src/Container/View.antt =====
-- IdTaggedContainer.hpp: what each operation does to the sequence of objects, to the incarnation and
-- to the caller, on every branch.
use moose_tools.Prelude.{
  ℕ, ◌≡◌, refl, Bool, not, Option, none, some, List, [], ◌∷◌, ◌++◌, arith, ltb, if◌then◌else◌,
  length, next64,
}
use moose_tools.Errors.{Result, ok, thrown}
use moose_tools.Container.Ids.{
  ids, count, Distinct, find_id, remove_id, Distinct-count_le, count-remove_id,
}
use moose_tools.Container.Index.{MultiIndex}
use moose_tools.Container.{Container, create, has, get, insert, replace, remove, clear, size}

module _ {T : Type 0} {id : T → ℕ} {M : MultiIndex id} where
  -- What is left of the container when a call returns or throws.
  abbrev pub after : Container M → Result (Container M × Bool) → Container M
  after c (ok (c', _)) = c'
  after c (thrown _) = c

  -- What the caller gets: nothing from an exception.
  abbrev pub reply : Result (Container M × Bool) → Option Bool
  reply (ok (_, b)) = some b
  reply (thrown _) = none

module _ {T : Type 0} {id : T → ℕ} (M : MultiIndex id) where
  -- The objects in the order of by_random.
  abbrev pub seq : Container M → List T
  seq c = M.by_random c.objects

  abbrev pub holds : Container M → ℕ → Bool
  holds c k = ltb 0 (count k (ids id (seq c)))

  pub has_lem : (c : Container M) (k : ℕ) → has M c k ≡ holds c k
  unfolding has
  has_lem c k = rw M.count_of_lem

  pub get_lem : (c : Container M) (k : ℕ) → get M c k ≡ find_id id k (seq c)
  unfolding get
  get_lem c k = M.find_lem c.objects k

  pub size_seq : (c : Container M) → size M c ≡ length (seq c)
  unfolding size
  size_seq c = M.size_lem c.objects

  pub seq-create : seq (create M) ≡ []
  unfolding create
  seq-create = M.by_random-empty

  -- `insert` appends a new object and counts; a known id changes nothing.
  pub insert_lem :
      (c : Container M) (o : T)
      → (reply (insert M c (some o)) ≡ some (not (holds c (id o))))
        × (seq (after c (insert M c (some o)))
            ≡ (if holds c (id o) then seq c else seq c ++ o ∷ []))
        × ((after c (insert M c (some o))).incarnation
            ≡ (if holds c (id o) then c.incarnation else next64 c.incarnation))
  unfolding insert
  insert_lem c o = ground (arith, M.count_of_lem c.objects (id o), M.by_random-insert c.objects o)

  -- `replace` moves the id to the end, and counts once.
  pub replace_lem :
      (c : Container M) (o : T)
      → Distinct (ids id (seq c))
      → (reply (replace M c (some o)) ≡ some (holds c (id o)))
        × (seq (after c (replace M c (some o))) ≡ remove_id id (id o) (seq c) ++ o ∷ [])
        × ((after c (replace M c (some o))).incarnation ≡ next64 c.incarnation)
  unfolding replace insert
  replace_lem c o d =
      let s = M.erase c.objects (id o) in
      ground (
        arith,
        M.erased c.objects (id o),
        M.by_random-erase c.objects (id o),
        M.count_of_lem s.0 (id o),
        M.by_random-insert s.0 o,
        count-remove_id id (id o) (id o) (seq c),
        Distinct-count_le (id o) (ids id (seq c)) d,
      )

  -- `remove` drops the object of the id; it counts exactly when there was one.
  pub remove_lem :
      (c : Container M) (k : ℕ)
      → Distinct (ids id (seq c))
      → ((remove M c k).1 ≡ holds c k)
        × (seq (remove M c k).0 ≡ remove_id id k (seq c))
        × ((remove M c k).0.incarnation
            ≡ (if holds c k then next64 c.incarnation else c.incarnation))
  unfolding remove
  remove_lem c k d = ground (
    arith,
    M.erased c.objects k,
    M.by_random-erase c.objects k,
    Distinct-count_le k (ids id (seq c)) d,
  )

  pub clear_lem :
      (c : Container M)
      → (seq (clear M c) ≡ [])
        × ((clear M c).incarnation
            ≡ (if ltb 0 (size M c) then next64 c.incarnation else c.incarnation))
  unfolding clear size
  clear_lem c = (emptied (seq c) refl, ground arith)
    where
      emptied : (os : List T) → seq c ≡ os → seq (clear M c) ≡ []
      emptied [] e = ground (arith, M.size_lem c.objects, M.by_random-clear c.objects)
      emptied (o ∷ os) e = ground (arith, M.size_lem c.objects, M.by_random-clear c.objects)
