-- ===== src/Container.antt =====
-- IdTaggedContainer.hpp: the container's state and its operations.
pub mod Ids
pub mod Index
pub mod View
pub mod Refinement
pub mod Incarnation
pub mod Equality
pub mod IdSet
pub mod Contents
pub mod Abstract
pub mod Iterator
mod Tests
use moose_tools.Prelude.{
  ℕ, Bool, true, false, not, Option, none, some, List, [], ◌∷◌, ltb, leb, ◌==◌, if◌then◌else◌,
  get_elem?, next64,
}
use moose_tools.Errors.{Kind, Exception, Result, ok, thrown, ◌>>=◌, undetermined}
use Index.{MultiIndex}

-- `m_objects` and the incarnation of the base `Incarnated`.
pub record Container {T : Type 0} {id : T → ℕ} (M : MultiIndex id) : Type 0 where
  pub objects : M.Store
  pub incarnation : ℕ

unfoldable pub null_pointer : Exception
null_pointer = record {
  kind = Kind.internal_error;
  message = "null pointer given";
  argument = none;
}

-- The index is a `std::size_t`, for which `error_argument` has no text.
pub out_of_bounds : Exception
out_of_bounds = record {
  kind = Kind.internal_error;
  message = "container index out of bounds";
  argument = some undetermined;
}

module _ {T : Type 0} {id : T → ℕ} (M : MultiIndex id) where
  pub create : Container M
  create = record { objects = M.empty; incarnation = 0 }

  abbrev increased : Container M → M.Store → Container M
  increased c s = record { objects = s; incarnation = next64 c.incarnation }

  pub size : Container M → ℕ
  size c = M.size c.objects

  pub has : Container M → ℕ → Bool
  has c k = ltb 0 (M.count_of c.objects k)

  has_object : Container M → T → Bool
  has_object c o = ltb 0 (M.count_of c.objects (id o))

  pub get : Container M → ℕ → Option T
  get c k = M.find c.objects k

  is_empty : Container M → Bool
  is_empty c = elim (M.by_random c.objects) [ [] ↦ true | _ ∷ _ ↦ false ]

  pub insert : Container M → Option T → Result (Container M × Bool)
  insert c none = thrown null_pointer
  insert c (some o) =
      if ltb 0 (M.count_of c.objects (id o))
      then ok (c, false)
      else ok (increased c (M.insert c.objects o), true)

  pub replace : Container M → Option T → Result (Container M × Bool)
  unfolding insert
  replace c none = thrown null_pointer
  replace c (some o) = do
    let erased = M.erase c.objects (id o)
    (c', _) ← insert (record c { objects = erased.0 }) (some o)
    ok (c', erased.1 == 1)

  pub remove : Container M → ℕ → Container M × Bool
  remove c k =
      let (s, n) = M.erase c.objects k in
      if n == 1 then (increased c s, true) else (record c { objects = s }, false)

  pub clear : Container M → Container M
  unfolding size
  clear c = if ltb 0 (size c) then increased c (M.clear c.objects) else c

  -- `idx[n_idx]`; the caller has checked the bound
  within : Option T → Result T
  within (some o) = ok o
  within none = thrown out_of_bounds

  -- `operator[]`, the const one too
  pub at : Container M → ℕ → Result T
  unfolding size within
  at c i =
      if leb (size c) i then thrown out_of_bounds else within (get_elem? (M.by_random c.objects) i)

  all_known : Container M → List T → Bool
  unfolding has
  all_known other [] = true
  all_known other (o ∷ os) =
      let rest = all_known other os in if not (has other (id o)) then false else rest

  -- `operator==` and `operator!=`
  pub equals : Container M → Container M → Bool
  unfolding size all_known
  equals c d = if not (size c == size d) then false else all_known d (M.by_random c.objects)

  pub differs : Container M → Container M → Bool
  unfolding equals
  differs c d = not (equals c d)

  -- The move constructor, from `other`: the new container and what is left of `other`.
  move_construct : Container M → Container M × Container M
  move_construct other =
      (record { objects = other.objects; incarnation = 0 }, record other { objects = M.empty })

  -- The move assignment: both containers afterwards.
  pub move_assign : Container M → Container M → Container M × Container M
  move_assign c other = (record c { objects = other.objects }, record other { objects = c.objects })
