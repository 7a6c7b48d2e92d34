-- ===== src/Container/Iterator.antt =====
-- IdTaggedContainer.hpp: `IdTaggedContainerIterator`, and the container's calls that use it.
-- `self` is the address of a container.
pub mod Erase
pub mod Loop
pub mod Purge
use moose_tools.Prelude.{
  ℕ, ◌+◌, ◌-◌, ◌%◌, Bool, true, false, ◌&&◌, Option, none, some, ltb, ◌==◌, if◌then◌else◌, next64,
  u64_mod,
}
use moose_tools.Errors.{Result}
use moose_tools.Container.Index.{MultiIndex}
use moose_tools.Container.{Container, size, at, increased}

-- `m_container` (null is `none`), `m_size` and `m_idx`.
pub record Iterator : Type 0 where
  pub container : Option ℕ
  pub size : ℕ
  pub idx : ℕ

default_iterator : Iterator
default_iterator = record { container = none; size = 0; idx = u64_mod - 1 }

pub increment : Iterator → Iterator
increment it = record it { idx = next64 it.idx }

decrement : Iterator → Iterator
decrement it = if ltb 0 it.idx then record it { idx = it.idx - 1 } else it

same_container : Option ℕ → Option ℕ → Bool
same_container none none = true
same_container (some a) (some b) = a == b
same_container _ _ = false

pub equal : Iterator → Iterator → Bool
unfolding same_container
equal a b = same_container a.container b.container && a.idx == b.idx

-- `advance`, which is also `+` on iterators
pub advance : Iterator → ℕ → Iterator
advance it n = record it { idx = (it.idx + n) % u64_mod }

module _ {T : Type 0} {id : T → ℕ} (M : MultiIndex id) (self : ℕ) where
  pub begin : Container M → Iterator
  begin c = record { container = some self; size = size M c; idx = 0 }

  pub end : Container M → Iterator
  unfolding begin advance
  end c = advance (begin c) (size M c)

  -- `c` is the container that the iterator points to.
  pub dereference : Container M → Iterator → Result T
  dereference c it = at M c it.idx

  pub erase : Container M → Iterator → Container M × Iterator
  unfolding end begin advance equal
  erase c it =
      if equal it (end c)
      then (c, end c)
      else let c' = increased M c (M.erase_at c.objects it.idx) in (c', advance (begin c') it.idx)
