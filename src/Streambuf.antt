-- ===== src/Streambuf.antt =====
-- AsioHelpers.hpp and AsioHelpers.cpp: `asio_streambuf_input_device`, a source of the bytes of a
-- `boost::asio::streambuf` up to a limit. `std::streamsize` is signed; a streambuf holds fewer bytes
-- than it can count.
pub mod Draining
pub mod Negative
mod Tests
use moose_tools.Prelude.{
  ℕ, ◌+◌, ◌-◌, ℤ, pos, negsuc, ◌-ℤ◌, min_ℤ, Bool, true, false, [], Bytes, length, take, ◌==◌,
  if◌then◌else◌, u64_mod,
}

-- The bytes of `m_streambuf`, and `m_bytes_remaining`.
pub record InputDevice : Type 0 where
  pub streambuf : Bytes
  pub bytes_remaining : ℤ

pub create : Bytes → ℤ → InputDevice
create streambuf limit = record { streambuf = streambuf; bytes_remaining = limit }

-- `std::copy_n`, which copies nothing for a negative number.
copy_n : Bytes → ℤ → Bytes
copy_n s (pos n) = take n s
copy_n s (negsuc n) = []

-- The conversion to the `std::size_t` that `consume` takes.
as_size : ℤ → ℕ
as_size (pos n) = n
as_size (negsuc n) = u64_mod - (n + 1)

is_zero : ℤ → Bool
is_zero (pos n) = n == 0
is_zero (negsuc n) = false

-- `read`, with the bytes that it copies into the buffer; `consume` is the streambuf's.
pub read : (Bytes → ℕ → Bytes) → InputDevice → ℤ → InputDevice × ℤ × Bytes
unfolding copy_n as_size is_zero
read consume d buffer_size =
    let bytes_to_copy = min_ℤ d.bytes_remaining (min_ℤ (pos (length d.streambuf)) buffer_size) in
    if is_zero bytes_to_copy then (d, negsuc 0, []) else (
      record {
        streambuf = consume d.streambuf (as_size bytes_to_copy);
        bytes_remaining = d.bytes_remaining -ℤ bytes_to_copy;
      },
      bytes_to_copy,
      copy_n d.streambuf bytes_to_copy,
    )
