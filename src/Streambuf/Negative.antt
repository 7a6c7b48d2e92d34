-- ===== src/Streambuf/Negative.antt =====
-- AsioHelpers.cpp: a limit below zero.
use moose_tools.Prelude.{
  ℕ, ◌+◌, ◌-◌, ◌≡◌, refl, ℤ, pos, negsuc, min_ℤ, ◌-ℤ◌, [], Bytes, length, u64_mod, arith, ap,
}
use moose_tools.Streambuf.{InputDevice, create, read, copy_n, as_size, is_zero}

min_ℤ-negsuc : (k a n : ℕ) → min_ℤ (negsuc k) (min_ℤ (pos a) (pos n)) ≡ negsuc k
min_ℤ-negsuc k a n = ground arith

-ℤ_self : (k : ℕ) → negsuc k -ℤ negsuc k ≡ pos 0
-ℤ_self k = ground arith

min_ℤ-zero : (a n : ℕ) → min_ℤ (pos 0) (min_ℤ (pos a) (pos n)) ≡ pos 0
min_ℤ-zero a n = ground arith

module _ (consume : Bytes → ℕ → Bytes) where
  -- For a limit -(k + 1), the first call copies nothing, asks the streambuf to drop 2 ^ 64 - (k + 1)
  -- bytes, and returns the limit as the number of bytes read; the calls after it return -1.
  read-negative :
      (s : Bytes) (k n m : ℕ)
      → let left : InputDevice = record {
        streambuf = consume s (u64_mod - (k + 1));
        bytes_remaining = pos 0;
      } in
        (read consume (create s (negsuc k)) (pos n) ≡ (left, negsuc k, []))
        × (read consume left (pos m) ≡ (left, negsuc 0, []))
  unfolding read create copy_n as_size is_zero
  read-negative s k n m =
      let t = consume s (u64_mod - (k + 1)) in
      (
        rw (min_ℤ-negsuc k (length s) n) (
            ap (λ (z : ℤ). (record { streambuf = t; bytes_remaining = z }, negsuc k, []))
              (-ℤ_self k)),
        rw (min_ℤ-zero (length t) m) refl,
      )
