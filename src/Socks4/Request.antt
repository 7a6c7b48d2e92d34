-- ===== src/Socks4/Request.antt =====
-- SOCKS4.hpp: the request buffer.
use moose_tools.Prelude.{
  ℕ, zero, suc, ◌+◌, ◌*◌, ◌/◌, ◌%◌, ◌^◌, ◌<◌, ◌≡◌, refl, ap, Option, none, some, [], ◌∷◌, ◌++◌,
  Bytes, codes, arith, length, ◌==◌, ◌&&◌, if◌then◌else◌, ◌>>=◌,
}
use mathlib.Core.Option
use moose_tools.Asio.{Address, v4}

-- `buffer[i] = b`; `none` is a write past the end.
poke : Bytes → ℕ → ℕ → Option Bytes
poke [] i b = none
poke (x ∷ xs) zero b = some (b ∷ xs)
poke (x ∷ xs) (suc i) b = do xs' ← poke xs i b; some (x ∷ xs')

-- `memcpy(&buffer[i], bytes, …)`
copy_to : Bytes → ℕ → Bytes → Option Bytes
copy_to buffer i [] = some buffer
copy_to buffer i (b ∷ bs) = do buffer' ← poke buffer i b; copy_to buffer' (suc i) bs

abbrev pub user_id : Bytes
user_id = codes "Moose"

-- The four assignments, the `memcpy` and the `strcpy`, which writes the final zero too.
unfoldable pub fill : Bytes → ℕ → Bytes → Option Bytes
unfolding poke copy_to
fill buffer port address = do
  b0 ← poke buffer 0 4
  b1 ← poke b0 1 1
  b2 ← poke b1 2 (port / 2 ^ 8 % 2 ^ 8)
  b3 ← poke b2 3 (port % 2 ^ 8)
  b4 ← copy_to b3 4 address
  copy_to b4 8 (user_id ++ 0 ∷ [])

pub data Request : Type 0 where
  connect : ℕ → Address → Bytes → Request

-- A proxy's reading of a request: version, command, port, address, and a user id that ends in zero.
until_zero : Bytes → Option Bytes
until_zero [] = none
until_zero (b ∷ bs) =
    let rest = until_zero bs in if b == 0 then some [] else Option.map (◌∷◌ b) rest

pub parse_request : Bytes → Option Request
unfolding until_zero
parse_request (version ∷ command ∷ hi ∷ lo ∷ a ∷ b ∷ c ∷ d ∷ rest) =
    if version == 4 && command == 1
    then Option.map (connect (hi * 256 + lo) (v4 a b c d)) (until_zero rest)
    else none
parse_request _ = none

-- Whatever 14 bytes the buffer holds, the writes stay inside it and leave these 14 bytes.
pub fill_lem :
    (buffer : Bytes) (port a b c d : ℕ)
    → length buffer ≡ 14
    → fill buffer port (a ∷ b ∷ c ∷ d ∷ [])
      ≡ some (4 ∷ 1 ∷ (port / 256 % 256) ∷ (port % 256) ∷ a ∷ b ∷ c ∷ d ∷ (user_id ++ 0 ∷ []))
unfolding fill
fill_lem (x0 ∷ x1 ∷ x2 ∷ x3 ∷ x4 ∷ x5 ∷ x6 ∷ x7 ∷ x8 ∷ x9 ∷ x10 ∷ x11 ∷ x12 ∷ x13 ∷ []) port a b c d
      h =
    refl
fill_lem _ port a b c d h = absurd (omega arith)

-- Whatever 14 bytes the buffer held: for a 16-bit port, a proxy that reads the filled buffer finds a
-- request to connect to that port and address for the user "Moose".
pub parse_request-fill :
    (buffer : Bytes) (port a b c d : ℕ)
    → length buffer ≡ 14
    → port < 2 ^ 16
    → (fill buffer port (a ∷ b ∷ c ∷ d ∷ []) >>= parse_request)
      ≡ some (connect port (v4 a b c d) user_id)
unfolding parse_request
parse_request-fill buffer port a b c d h fits =
    rw (fill_lem buffer port a b c d h)
      (ap (λ (p : ℕ). some (connect p (v4 a b c d) user_id)) (omega arith))
