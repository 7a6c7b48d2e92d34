-- ===== src/Random/Bits.antt =====
-- The laws of exclusive or on numbers of any size, from its digits.
use Prim.Native.Nat.{digits, differ, bit_xor, bit_xor-bitwise}
use native.Mathlib.Nat.{
  pow-suc, add-mul-mod_self_right, mod-eq_of_lt, div-add-mod', mod-lt, one-le-pow,
}
use moose_tools.Prelude.{ℕ, zero, suc, ◌+◌, ◌*◌, ◌/◌, ◌%◌, ◌^◌, ◌≤◌, ◌<◌, ◌≡◌, refl, ap, arith, ◌∙◌}

abbrev xor_digits : ℕ → ℕ → ℕ → ℕ
xor_digits = digits (λ b. b) differ

-- Fuel beyond the first number is not used.
xor_digits-enough : (n m a b : ℕ) → a ≤ n → a ≤ m → xor_digits n a b ≡ xor_digits m a b
xor_digits-enough zero zero zero b p q = refl
xor_digits-enough zero (suc m) zero b p q = refl
xor_digits-enough (suc n) zero zero b p q = refl
xor_digits-enough (suc n) (suc m) zero b p q = refl
xor_digits-enough zero m (suc a) b p q = absurd (omega arith)
xor_digits-enough (suc n) zero (suc a) b p q = absurd (omega arith)
xor_digits-enough (suc n) (suc m) (suc a) b p q =
    omega (arith, xor_digits-enough n m (suc a / 2) (b / 2) (omega arith) (omega arith))

differ_digits : (x y : ℕ) → x < 2 → y < 2 → differ x y ≡ (x + y) % 2
differ_digits zero zero p q = refl
differ_digits zero (suc zero) p q = refl
differ_digits (suc zero) zero p q = refl
differ_digits (suc zero) (suc zero) p q = refl
differ_digits (suc (suc x)) y p q = absurd (omega arith)
differ_digits x (suc (suc y)) p q = absurd (omega arith)

zero-bit_xor : (b : ℕ) → bit_xor 0 b ≡ b
zero-bit_xor b = bit_xor-bitwise 0 b

-- The equation of the lowest digit.
bit_xor_step : (a b : ℕ) → bit_xor a b ≡ bit_xor (a / 2) (b / 2) * 2 + (a + b) % 2
bit_xor_step zero b = omega (arith, zero-bit_xor b, zero-bit_xor (b / 2))
bit_xor_step (suc a) b = omega (
  arith,
  bit_xor-bitwise (suc a) b,
  bit_xor-bitwise (suc a / 2) (b / 2),
  xor_digits-enough a (suc a / 2) (suc a / 2) (b / 2) (omega arith) (omega arith),
  differ_digits (suc a % 2) (b % 2) (omega arith) (omega arith),
)

pub half-bit_xor : (a b : ℕ) → bit_xor a b / 2 ≡ bit_xor (a / 2) (b / 2)
half-bit_xor a b = omega (arith, bit_xor_step a b)

-- Induction on a bound of the numbers.
comm_to : (n a b : ℕ) → a ≤ n → b ≤ n → bit_xor a b ≡ bit_xor b a
comm_to zero zero zero p q = refl
comm_to zero (suc a) b p q = absurd (omega arith)
comm_to zero a (suc b) p q = absurd (omega arith)
comm_to (suc n) a b p q = omega (
  arith,
  bit_xor_step a b,
  bit_xor_step b a,
  comm_to n (a / 2) (b / 2) (omega arith) (omega arith),
)

bit_xor_comm : (a b : ℕ) → bit_xor a b ≡ bit_xor b a
bit_xor_comm a b = comm_to (a + b) a b (omega arith) (omega arith)

assoc_to : (n a b c : ℕ) → a ≤ n → b ≤ n → c ≤ n → bit_xor (bit_xor a b) c ≡ bit_xor a (bit_xor b c)
assoc_to zero zero zero zero p q r = refl
assoc_to zero (suc a) b c p q r = absurd (omega arith)
assoc_to zero a (suc b) c p q r = absurd (omega arith)
assoc_to zero a b (suc c) p q r = absurd (omega arith)
assoc_to (suc n) a b c p q r =
    let ih = assoc_to n (a / 2) (b / 2) (c / 2) (omega arith) (omega arith) (omega arith) in
    let l : bit_xor (bit_xor a b) c
        ≡ bit_xor (bit_xor (a / 2) (b / 2)) (c / 2) * 2 + (bit_xor a b + c) % 2 =
      rw (← half-bit_xor a b) (bit_xor_step (bit_xor a b) c) in
    let m : bit_xor a (bit_xor b c)
        ≡ bit_xor (a / 2) (bit_xor (b / 2) (c / 2)) * 2 + (a + bit_xor b c) % 2 =
      rw (← half-bit_xor b c) (bit_xor_step a (bit_xor b c)) in
    omega (arith, ih, l, m, bit_xor_step a b, bit_xor_step b c)

pub bit_xor_assoc : (a b c : ℕ) → bit_xor (bit_xor a b) c ≡ bit_xor a (bit_xor b c)
bit_xor_assoc a b c = assoc_to (a + b + c) a b c (omega arith) (omega arith) (omega arith)

self_to : (n a : ℕ) → a ≤ n → bit_xor a a ≡ 0
self_to zero zero p = refl
self_to zero (suc a) p = absurd (omega arith)
self_to (suc n) a p = omega (arith, bit_xor_step a a, self_to n (a / 2) (omega arith))

pub bit_xor_self : (a : ℕ) → bit_xor a a ≡ 0
bit_xor_self a = self_to a a (omega arith)

pub bit_xor-zero : (a : ℕ) → bit_xor a 0 ≡ a
bit_xor-zero a = bit_xor_comm a 0 ∙ zero-bit_xor a

-- An operand that stands there twice goes away.
pub bit_xor_cancel : (a b : ℕ) → bit_xor a (bit_xor a b) ≡ b
bit_xor_cancel a b = rw (← bit_xor_assoc a a b, bit_xor_self a) (zero-bit_xor b)

twice-bit_xor : (a b : ℕ) → bit_xor (2 * a) (2 * b) ≡ 2 * bit_xor a b
twice-bit_xor a b =
    let e : (2 * a) / 2 ≡ a = omega arith in
    let f : (2 * b) / 2 ≡ b = omega arith in
    let s : bit_xor (2 * a) (2 * b) ≡ bit_xor a b * 2 + (2 * a + 2 * b) % 2 =
      bit_xor_step (2 * a) (2 * b) ∙ ap (λ (t : ℕ). t * 2 + (2 * a + 2 * b) % 2) (rw (e, f) refl) in
    omega (arith, s)

-- The remainder by twice a number, by its lowest digit.
mod_twice : (a m : ℕ) → 0 < m → a % (2 * m) ≡ 2 * ((a / 2) % m) + a % 2
mod_twice a m p =
    let q = a / 2 / m in
    let r = a / 2 % m in
    let b : r < m = mod-lt (a / 2) p in
    let e : a ≡ 2 * r + a % 2 + q * (2 * m) = grind (arith, div-add-mod' (a / 2) m) in
    let f : (2 * r + a % 2) % (2 * m) ≡ 2 * r + a % 2 = mod-eq_of_lt (omega arith) in
    ap (λ (t : ℕ). t % (2 * m)) e ∙ add-mul-mod_self_right (2 * r + a % 2) q (2 * m) ∙ f

pub mod-bit_xor : (w a b : ℕ) → bit_xor a b % 2 ^ w ≡ bit_xor (a % 2 ^ w) (b % 2 ^ w)
mod-bit_xor zero a b =
    let e : a % 1 ≡ 0 = omega arith in let f : b % 1 ≡ 0 = omega arith in rw (e, f) (omega arith)
mod-bit_xor (suc w) a b =
    let m = 2 ^ w in
    let two : 2 ^ suc w ≡ 2 * m = omega (arith, pow-suc 2 w) in
    let p : 0 < m = one-le-pow w 2 (omega arith) in
    let A : a % (2 * m) ≡ 2 * ((a / 2) % m) + a % 2 = mod_twice a m p in
    let B : b % (2 * m) ≡ 2 * ((b / 2) % m) + b % 2 = mod_twice b m p in
    let A' : a % (2 * m) / 2 ≡ (a / 2) % m = omega (arith, A) in
    let B' : b % (2 * m) / 2 ≡ (b / 2) % m = omega (arith, B) in
    let l : bit_xor a b % (2 * m) ≡ 2 * (bit_xor (a / 2) (b / 2) % m) + bit_xor a b % 2 =
      rw (← half-bit_xor a b) (mod_twice (bit_xor a b) m p) in
    let r : bit_xor (a % (2 * m)) (b % (2 * m))
        ≡ bit_xor ((a / 2) % m) ((b / 2) % m) * 2 + (a % (2 * m) + b % (2 * m)) % 2 =
      rw (← A', ← B') (bit_xor_step (a % (2 * m)) (b % (2 * m))) in
    rw two (omega (arith, l, r, A, B, mod-bit_xor w (a / 2) (b / 2), bit_xor_step a b))

pub mul-two_pow : (c k : ℕ) → c * 2 ^ suc k ≡ 2 * (c * 2 ^ k)
mul-two_pow c k = grind (arith, pow-suc 2 k)

pub shift-bit_xor : (k a b : ℕ) → bit_xor a b * 2 ^ k ≡ bit_xor (a * 2 ^ k) (b * 2 ^ k)
shift-bit_xor zero a b =
    let e : a * 1 ≡ a = omega arith in let f : b * 1 ≡ b = omega arith in rw (e, f) (omega arith)
shift-bit_xor (suc k) a b =
    let d = λ (c : ℕ). mul-two_pow c k in
    rw (d (bit_xor a b), d a, d b, twice-bit_xor (a * 2 ^ k) (b * 2 ^ k))
      (ap (λ (t : ℕ). 2 * t) (shift-bit_xor k a b))
