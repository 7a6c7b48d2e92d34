-- ===== src/Random/Xorshift.antt =====
-- Random.cpp: `xorshf96`, on an `unsigned long` of 64 bits.
use Prim.Native.Nat.{bit_xor}
use moose_tools.Prelude.{ℕ, zero, suc, ◌*◌, ◌/◌, ◌%◌, ◌^◌, ◌<◌, ◌≡◌, refl, ap, arith, ◌∙◌, u64_mod}
use moose_tools.Random.Bits.{
  half-bit_xor, bit_xor_assoc, bit_xor_self, bit_xor-zero, bit_xor_cancel, mod-bit_xor,
  shift-bit_xor, mul-two_pow,
}

-- The static variables `x`, `y` and `z`.
pub record Seeds : Type 0 where
  pub x : ℕ
  pub y : ℕ
  pub z : ℕ

abbrev pub initial_seeds : Seeds
initial_seeds = record { x = 123456789; y = 362436069; z = 521288629 }

abbrev shl : ℕ → ℕ → ℕ
shl k a = a * 2 ^ k % u64_mod

abbrev shr : ℕ → ℕ → ℕ
shr k a = a / 2 ^ k

-- `a ^= s(a)`
abbrev xor_with : (ℕ → ℕ) → ℕ → ℕ
xor_with s a = bit_xor a (s a)

-- The variables afterwards and the number returned.
pub xorshf96 : Seeds → Seeds × ℕ
xorshf96 v =
    let t = xor_with (shl 1) (xor_with (shr 5) (xor_with (shl 16) v.x)) in
    let z = bit_xor (bit_xor t v.y) v.z in (record { x = v.y; y = v.z; z = z }, z)

-- The other way: the operand is found again a few digits at a time.
unshift : ℕ → (ℕ → ℕ) → ℕ → ℕ
unshift zero s a = a
unshift (suc n) s a = bit_xor a (s (unshift n s a))

pub previous : Seeds → Seeds
unfolding unshift
previous v =
    let t = bit_xor (bit_xor v.z v.y) v.x in
    record { x = unshift 3 (shl 16) (unshift 12 (shr 5) (unshift 63 (shl 1) t)); y = v.x; z = v.y }

iterate : ℕ → (ℕ → ℕ) → ℕ → ℕ
iterate zero s a = a
iterate (suc n) s a = s (iterate n s a)

IsLinear : (ℕ → ℕ) → Type 0
IsLinear s = (a b : ℕ) → s (bit_xor a b) ≡ bit_xor (s a) (s b)

unshift-xor_with :
    (n : ℕ) (s : ℕ → ℕ) (a : ℕ)
    → IsLinear s
    → unshift n s (xor_with s a) ≡ bit_xor a (iterate (suc n) s a)
unfolding unshift iterate IsLinear
unshift-xor_with zero s a l = refl
unshift-xor_with (suc n) s a l =
    rw
      (
        unshift-xor_with n s a l,
        l a (iterate (suc n) s a),
        bit_xor_assoc a (s a),
        bit_xor_cancel (s a),
      )
      refl

unshift_all :
    (n : ℕ) (s : ℕ → ℕ) (a : ℕ)
    → IsLinear s
    → iterate (suc n) s a ≡ 0
    → unshift n s (xor_with s a) ≡ a
unshift_all n s a l z = unshift-xor_with n s a l ∙ ap (bit_xor a) z ∙ bit_xor-zero a

shl-IsLinear : (k : ℕ) → IsLinear (shl k)
unfolding IsLinear
shl-IsLinear k a b =
    ap (λ (t : ℕ). t % u64_mod) (shift-bit_xor k a b) ∙ mod-bit_xor 64 (a * 2 ^ k) (b * 2 ^ k)

shr-IsLinear : IsLinear (shr 5)
unfolding IsLinear
shr-IsLinear a b =
    let d : (c : ℕ) → c / 2 ^ 5 ≡ c / 2 / 2 / 2 / 2 / 2 = λ c. omega arith in
    rw
      (
        d (bit_xor a b),
        half-bit_xor,
        half-bit_xor,
        half-bit_xor,
        half-bit_xor,
        half-bit_xor,
        d a,
        d b,
      )
      refl

shl_out : (a : ℕ) → iterate 4 (shl 16) a ≡ 0
unfolding iterate
shl_out a = omega arith

shr_out : (a : ℕ) → a < u64_mod → iterate 13 (shr 5) a ≡ 0
unfolding iterate
shr_out a h = omega arith

iterate-shl : (n a : ℕ) → iterate n (shl 1) (a % u64_mod) ≡ a * 2 ^ n % u64_mod
unfolding iterate
iterate-shl zero a = omega arith
iterate-shl (suc n) a =
    let t = a * 2 ^ n in
    let e : a * 2 ^ suc n ≡ 2 * t = mul-two_pow a n in omega (arith, iterate-shl n a, e)

shl_one_out : (a : ℕ) → a < u64_mod → iterate 64 (shl 1) a ≡ 0
shl_one_out a h =
    let e : a % u64_mod ≡ a = omega arith in
    let f : a * 2 ^ 64 % u64_mod ≡ 0 = omega arith in rw (← e) (iterate-shl 64 a ∙ f)

-- Each variable fits a word.
pub record IsBounded (v : Seeds) : Type 0 where
  pub x_lt : v.x < u64_mod
  pub y_lt : v.y < u64_mod
  pub z_lt : v.z < u64_mod

bit_xor-lt : (a b : ℕ) → a < u64_mod → b < u64_mod → bit_xor a b < u64_mod
bit_xor-lt a b p q =
    let e : a % 2 ^ 64 ≡ a = omega arith in
    let f : b % 2 ^ 64 ≡ b = omega arith in
    let g : bit_xor a b % 2 ^ 64 ≡ bit_xor a b = mod-bit_xor 64 a b ∙ rw (e, f) refl in
    omega (arith, g)

-- The number that `x` becomes in the three assignments.
scrambled : ℕ → ℕ
scrambled a = xor_with (shl 1) (xor_with (shr 5) (xor_with (shl 16) a))

scrambled-lt : (a : ℕ) → a < u64_mod → scrambled a < u64_mod
unfolding scrambled
scrambled-lt a h =
    let b = xor_with (shl 16) a in
    let p : b < u64_mod = bit_xor-lt a (shl 16 a) h (omega arith) in
    let c = xor_with (shr 5) b in
    let q : c < u64_mod = bit_xor-lt b (shr 5 b) p (omega arith) in
    bit_xor-lt c (shl 1 c) q (omega arith)

unshift-scrambled :
    (a : ℕ)
    → a < u64_mod
    → unshift 3 (shl 16) (unshift 12 (shr 5) (unshift 63 (shl 1) (scrambled a))) ≡ a
unfolding scrambled
unshift-scrambled a h =
    let b = xor_with (shl 16) a in
    let p : b < u64_mod = bit_xor-lt a (shl 16 a) h (omega arith) in
    let c = xor_with (shr 5) b in
    let q : c < u64_mod = bit_xor-lt b (shr 5 b) p (omega arith) in
    rw
      (
        unshift_all 63 (shl 1) c (shl-IsLinear 1) (shl_one_out c q),
        unshift_all 12 (shr 5) b shr-IsLinear (shr_out b p),
      )
      (unshift_all 3 (shl 16) a (shl-IsLinear 16) (shl_out a))

xor_back : (t y z : ℕ) → bit_xor (bit_xor (bit_xor (bit_xor t y) z) z) y ≡ t
xor_back t y z =
    rw
      (
        bit_xor_assoc (bit_xor t y) z z,
        bit_xor_self z,
        bit_xor-zero (bit_xor t y),
        bit_xor_assoc t y y,
        bit_xor_self y,
      )
      (bit_xor-zero t)

-- In a state whose variables are 64-bit words a call leaves such words, and `previous` finds the state
-- before the call.
pub previous-xorshf96 :
    (v : Seeds) → IsBounded v → (previous (xorshf96 v).0 ≡ v) × IsBounded (xorshf96 v).0
unfolding previous xorshf96 scrambled
previous-xorshf96 v b = (
  rw (xor_back (scrambled v.x) v.y v.z, unshift-scrambled v.x b.x_lt) refl,
  record {
    x_lt = b.y_lt;
    y_lt = b.z_lt;
    z_lt =
        bit_xor-lt _ v.z (bit_xor-lt (scrambled v.x) v.y (scrambled-lt v.x b.x_lt) b.y_lt) b.z_lt;
  },
)

abbrev pub zero_seeds : Seeds
zero_seeds = record { x = 0; y = 0; z = 0 }

pub previous-zero_seeds : previous zero_seeds ≡ zero_seeds
unfolding previous unshift
previous-zero_seeds = refl
