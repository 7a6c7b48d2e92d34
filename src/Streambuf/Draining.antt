-- ===== src/Streambuf/Draining.antt =====
-- AsioHelpers.cpp: reading until the end of the sequence.
use moose_tools.Prelude.{
  ℕ, zero, suc, ◌+◌, ◌-◌, ◌≤◌, ◌<◌, min, ◌≡◌, refl, sym, ℤ, pos, negsuc, min_ℤ, ◌-ℤ◌, Option, none,
  some, [], ◌∷◌, ◌++◌, Bytes, length, take, drop, length-drop, arith, append_assoc, ◌⊎◌, inl, inr,
  ap, append-nil, ◌∙◌, ◌==◌, if◌then◌else◌,
}
use mathlib.Core.Path.{ap₂}
use moose_tools.Streambuf.{InputDevice, create, read, copy_n, as_size, is_zero}

split_take : (k r m : ℕ) (s : Bytes) → m ≡ k + r → take k s ++ take r (drop k s) ≡ take m s
split_take zero r m s h = ap (λ (i : ℕ). take i s) (omega arith)
split_take (suc k) r zero s h = absurd (omega arith)
split_take (suc k) zero (suc m) [] h = refl
split_take (suc k) (suc r) (suc m) [] h = refl
split_take (suc k) r (suc m) (x ∷ s) h = rw (split_take k r m s (omega arith))

split_drop : (k r m : ℕ) (s : Bytes) → m ≡ k + r → drop r (drop k s) ≡ drop m s
split_drop zero r m s h = ap (λ (i : ℕ). drop i s) (omega arith)
split_drop (suc k) r zero s h = absurd (omega arith)
split_drop (suc k) zero (suc m) [] h = refl
split_drop (suc k) (suc r) (suc m) [] h = refl
split_drop (suc k) r (suc m) (x ∷ s) h = split_drop k r m s (omega arith)

take_all : (m : ℕ) (s : Bytes) → min m (length s) ≡ 0 → (take m s ≡ []) × (drop m s ≡ s)
take_all zero s h = (refl, refl)
take_all (suc m) [] h = (refl, refl)
take_all (suc m) (x ∷ s) h = absurd (omega arith)

abbrev pub device : Bytes → ℕ → InputDevice
device s r = record { streambuf = s; bytes_remaining = pos r }

zero_or : (n : ℕ) → (n ≡ 0) ⊎ (0 < n)
zero_or n = ground arith

copies : Bytes → ℕ → ℕ → ℕ
copies s r n = min r (min (length s) n)

copies_le : (s : Bytes) (r n : ℕ) → (copies s r n ≤ r) × (copies s r n ≤ length s)
unfolding copies
copies_le s r n = (omega arith, omega arith)

copies-zero : (s : Bytes) (r n : ℕ) → 0 < n → copies s r n ≡ 0 → min r (length s) ≡ 0
unfolding copies
copies-zero s r n p e = omega arith

left_zero : (s : Bytes) (r n : ℕ) → 0 < n → copies s r n ≡ 0 → r ≡ r - length s
unfolding copies
left_zero s r n p e = omega arith

still_less :
    (s : Bytes) (r n calls : ℕ)
    → 0 < copies s r n
    → min r (length s) < suc calls
    → min (r - copies s r n) (length (drop (copies s r n) s)) < calls
still_less s r n calls e b =
    omega (arith, length-drop (copies s r n) s, (copies_le s r n).0, (copies_le s r n).1)

min_ℤ-pos : (a b : ℕ) → min_ℤ (pos a) (pos b) ≡ pos (min a b)
min_ℤ-pos a b = ground arith

-ℤ-pos : (a b : ℕ) → b ≤ a → pos a -ℤ pos b ≡ pos (a - b)
-ℤ-pos a b h = ground arith

-- `consume` of a streambuf, for a number of bytes that it has.
module _ (consume : Bytes → ℕ → Bytes)
    (consume_lem : (s : Bytes) (n : ℕ) → n ≤ length s → consume s n ≡ drop n s) where
  -- A client's loop, for so many calls at most: what it has read, until `read` returns -1.
  unfoldable pub drain : ℕ → ℕ → InputDevice → Bytes → Option (InputDevice × Bytes)
  drain zero n d sofar = none
  drain (suc calls) n d sofar = elim (read consume d (pos n)).1 [
    | negsuc _ ↦ some ((read consume d (pos n)).0, sofar)
    | pos _ ↦ drain calls n (read consume d (pos n)).0 (sofar ++ (read consume d (pos n)).2)
  ]

  -- How the loop goes on with the answer of a call.
  abbrev answered : ℕ → ℕ → InputDevice × ℤ × Bytes → Bytes → Option (InputDevice × Bytes)
  answered calls n r sofar = elim r.1 [
    | negsuc _ ↦ some (r.0, sofar)
    | pos _ ↦ drain calls n r.0 (sofar ++ r.2)
  ]

  read-copies :
      (s : Bytes) (r n : ℕ)
      → read consume (device s r) (pos n) ≡ (
          if copies s r n == 0 then (device s r, negsuc 0, []) else (
            device (consume s (copies s r n)) (r - copies s r n),
            pos (copies s r n),
            take (copies s r n) s,
          ))
  unfolding read copies copy_n as_size is_zero
  read-copies s r n =
      rw (min_ℤ-pos (length s) n, min_ℤ-pos r (min (length s) n))
        (ap
          (λ (z : ℤ). if copies s r n == 0 then (device s r, negsuc 0, []) else (
            record { streambuf = consume s (copies s r n); bytes_remaining = z },
            pos (copies s r n),
            take (copies s r n) s,
          ))
          (-ℤ-pos r (copies s r n) (copies_le s r n).0))

  read-none :
      (s : Bytes) (r n : ℕ)
      → copies s r n ≡ 0
      → read consume (device s r) (pos n) ≡ (device s r, negsuc 0, [])
  read-none s r n e = read-copies s r n ∙ rw e refl

  read-some :
      (s : Bytes) (r n : ℕ)
      → 0 < copies s r n
      → read consume (device s r) (pos n) ≡ (
        device (drop (copies s r n) s) (r - copies s r n),
        pos (copies s r n),
        take (copies s r n) s,
      )
  read-some s r n p =
      read-copies s r n ∙ rw (consume_lem s (copies s r n) (copies_le s r n).1) (ground arith)

  -- Reads of at most `n` bytes at a time.
  drain_from :
      (calls n : ℕ) (s : Bytes) (r : ℕ) (sofar : Bytes)
      → 0 < n
      → min r (length s) < calls
      → drain calls n (device s r) sofar
        ≡ some (device (drop r s) (r - length s), sofar ++ take r s)
  unfolding drain
  drain_from zero n s r sofar p b = absurd (omega arith)
  drain_from (suc calls) n s r sofar p b = elim (zero_or (copies s r n)) [
    | inl e ↦
        let (t, u) = take_all r s (copies-zero s r n p e) in
        ap (λ x. answered calls n x sofar) (read-none s r n e)
        ∙ ap₂ (λ (d : InputDevice) (t : Bytes). some (d, t))
            (ap₂ device (sym u) (left_zero s r n p e))
            (sym (append-nil sofar) ∙ ap (λ (t : Bytes). sofar ++ t) (sym t))
    | inr e ↦
        let k = copies s r n in
        let (h, l) = copies_le s r n in
        ap (λ x. answered calls n x sofar) (read-some s r n e)
        ∙ drain_from calls n (drop k s) (r - k) (sofar ++ take k s) p (still_less s r n calls e b)
        ∙ ap₂ (λ (d : InputDevice) (t : Bytes). some (d, t))
            (ap₂ device (split_drop k (r - k) r s (omega arith)) (omega (arith, length-drop k s)))
            (append_assoc sofar (take k s) (take (r - k) (drop k s))
              ∙ ap (λ (t : Bytes). sofar ++ t) (split_take k (r - k) r s (omega arith)))
  ]

  -- For a streambuf whose `consume` drops bytes that it has, any limit that is not negative, and any
  -- buffer size but 0: reading until the end of the sequence
  -- ends after at most min(limit, size) + 1 calls of `read`, yields the first bytes of the streambuf, up
  -- to the limit, and leaves the bytes behind them.
  pub drain-create :
      (streambuf : Bytes) (limit buffer_size : ℕ)
      → 0 < buffer_size
      → drain (min limit (length streambuf) + 1) buffer_size (create streambuf (pos limit)) []
        ≡ some (
          record {
            streambuf = drop limit streambuf;
            bytes_remaining = pos (limit - length streambuf);
          },
          take limit streambuf,
        )
  unfolding create
  drain-create streambuf limit buffer_size p =
      drain_from (min limit (length streambuf) + 1) buffer_size streambuf limit [] p (omega arith)
