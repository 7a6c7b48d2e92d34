-- ===== src/Pimpled.antt =====
-- Pimpled.hpp: the private implementation behind a pointer, of which the object is the owner.
pub mod Lifetime
mod Tests
use moose_tools.Prelude.{
  ℕ, zero, suc, ◌+◌, Bool, true, false, Option, none, some, ◌==◌, if◌then◌else◌,
}

-- A `PimplType`: where its base `Pimplee` lies in its objects, if it is a base.
pub record Layout : Type 0 where
  pub pimplee : Option ℕ

-- The objects that live on the heap, by address.
abbrev pub Heap : Type 0
Heap = ℕ → Bool

abbrev pub set_live : Heap → ℕ → Bool → Heap
set_live h a live b = if a == b then live else h b

-- What a call comes to: it returns, throws `std::runtime_error`, fails an assertion, or does what C++
-- leaves undefined.
pub data Outcome (A : Type 0) : Type 0 where
  done : Heap → A → Outcome A
  runtime_error : Heap → Outcome A
  terminated undefined : Outcome A

infixl 5 ◌>>=◌
abbrev pub ◌>>=◌ : {A B : Type 0} → Outcome A → (Heap → A → Outcome B) → Outcome B
done h a >>= f = f h a
runtime_error h >>= f = runtime_error h
terminated >>= f = terminated
undefined >>= f = undefined

-- `m_d`; null is `none`.
pub record Pimpled : Type 0 where
  pub m_d : Option ℕ

-- `dynamic_cast<Pimplee *>(m_d)`
dynamic_cast : Layout → ℕ → Option ℕ
dynamic_cast l a = elim l.pimplee [ none ↦ none | some offset ↦ some (a + offset) ]

-- `delete m_d`, where `m_d` points to the whole object.
delete_whole : Heap → ℕ → Heap
delete_whole h a = set_live h a false

checked : Heap → ℕ → Option ℕ → Outcome Pimpled
unfolding delete_whole
checked h a none = runtime_error (delete_whole h a)
checked h a (some pimplee) = done h (record { m_d = some a })

-- The constructor; `new` has found the address.
pub construct : Layout → Heap → ℕ → Outcome Pimpled
unfolding checked dynamic_cast
construct l h a = let h' = set_live h a true in checked h' a (dynamic_cast l a)

-- `delete` of a `Pimplee *`: the address must be the one of the base in a living object, which its
-- virtual destructor then destroys.
delete_pimplee : Layout → Heap → ℕ → Option ℕ → Outcome Unit
delete_pimplee l h a none = undefined
delete_pimplee l h a (some offset) = if offset == 0 then done (set_live h a false) tt else undefined

destroyed : Layout → Heap → Option ℕ → Outcome Unit
unfolding delete_pimplee
destroyed l h none = terminated
destroyed l h (some a) = delete_pimplee l h a l.pimplee

-- The destructor: `reinterpret_cast<Pimplee *>` leaves the address as it is.
pub destroy : Layout → Heap → Pimpled → Outcome Unit
unfolding destroyed
destroy l h p = destroyed l h p.m_d

-- `d()`: a reference, here its address.
pub d : Heap → Pimpled → Outcome ℕ
d h p = elim p.m_d [ none ↦ terminated | some a ↦ done h a ]
