-- ===== src/Pimpled/Lifetime.antt =====
-- Pimpled.hpp: an object from its construction to its destruction.
use mathlib.Core.Path.{fun_ext}
use moose_tools.Prelude.{
  ℕ, zero, suc, ◌≡◌, refl, ap, true, false, Option, none, some, ◌==◌, if◌then◌else◌, arith, ◌∙◌,
}
use moose_tools.Pimpled.{
  Layout, Heap, set_live, Outcome, done, runtime_error, undefined, ◌>>=◌, Pimpled, checked,
  dynamic_cast, delete_whole, delete_pimplee, destroyed, construct, destroy, d,
}

-- So many accesses to the implementation, each of which must find the address.
accesses : ℕ → Heap → Pimpled → Outcome Unit
accesses zero h p = done h tt
accesses (suc n) h p = d h p >>= λ h' a. accesses n h' p

-- Construction, accesses and destruction.
pub lifetime : Layout → Heap → ℕ → ℕ → Outcome Unit
unfolding accesses
lifetime l h a n = construct l h a >>= λ h' p. accesses n h' p >>= λ h'' _. destroy l h'' p

accesses_lem : (n : ℕ) (h : Heap) (a : ℕ) → accesses n h (record { m_d = some a }) ≡ done h tt
unfolding accesses d
accesses_lem zero h a = refl
accesses_lem (suc n) h a = accesses_lem n h a

set_live_twice : (h : Heap) (a : ℕ) → h a ≡ false → set_live (set_live h a true) a false ≡ h
set_live_twice h a e = fun_ext (λ b. ground arith)

-- What becomes of an object by the place of the base: none, or an offset.
unfoldable pub fate : Heap → Option ℕ → Outcome Unit
fate h none = runtime_error h
fate h (some offset) = if offset == 0 then done h tt else undefined

-- For a free address: if the implementation's type has no base `Pimplee`, the constructor throws and
-- leaves no object behind; if the base lies at the start of its objects, construction, any number of
-- accesses and destruction succeed and leave no object behind; and if the base lies elsewhere, the
-- destructor deletes a wrong address.
pub lifetime_lem :
    (l : Layout) (h : Heap) (a n : ℕ) → h a ≡ false → lifetime l h a n ≡ fate h l.pimplee
unfolding lifetime construct dynamic_cast checked delete_whole destroy destroyed delete_pimplee fate
lifetime_lem l h a n e = by_base l.pimplee
  where
    by_base : (o : Option ℕ) → lifetime (record { pimplee = o }) h a n ≡ fate h o
    by_base none = ap runtime_error (set_live_twice h a e)
    by_base (some offset) =
        ap
          (λ (r : Outcome Unit).
            r >>= λ h'' _. destroy (record { pimplee = some offset }) h'' (record { m_d = some a }))
          (accesses_lem n (set_live h a true) a)
        ∙ ap (λ (h' : Heap). if offset == 0 then done h' tt else undefined) (set_live_twice h a e)
