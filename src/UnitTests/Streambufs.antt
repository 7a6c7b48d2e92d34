-- ===== src/UnitTests/Streambufs.antt =====
-- test/TestAsioHelpers.cpp: the case on the streambuf device. A stream around the device reads it to
-- the end, a buffer at a time.

use moose_tools.Prelude.{
  ℕ, ◌+◌, ◌<◌, ◌≤◌, min, ◌≡◌, refl, pos, true, Option, some, [], ◌∷◌, ◌++◌, Bytes, codes, length,
  drop, ◌>>=◌,
}
use moose_tools.Errors.{ok}
use moose_tools.Paths.{bytes_eq}
use moose_tools.Streambuf.{InputDevice, create}
use moose_tools.Streambuf.Draining.{drain, drain-create}
use moose_tools.UnitTests.{Checks, passes, all_hold, loop_of}

module _ (consume : Bytes → ℕ → Bytes)
    (consume_lem : (s : Bytes) (n : ℕ) → n ≤ length s → consume s n ≡ drop n s)
    (buffer_size : ℕ) where
  -- `os.read` of a stream with a limit.
  unfoldable os_read : Bytes → ℕ → Option (InputDevice × Bytes)
  os_read sbuf limit =
      drain consume consume_lem (min limit (length sbuf) + 1) buffer_size (create sbuf (pos limit))
        []

  -- The case `CheckStreambufLimit`, with its checks of the texts.
  unfoldable check_streambuf_limit : Checks
  unfolding os_read
  check_streambuf_limit = loop_of (do
    (d1, test1) ← os_read (codes "Hello World!") 5
    (d2, test2) ← os_read (d1.streambuf ++ codes " This is a Test") 5
    some (ok (bytes_eq test1 (codes "Hello") ∷ bytes_eq test2 (codes " Worl") ∷ [])))

  check_streambuf_limit-passes : 0 < buffer_size → passes check_streambuf_limit ≡ true
  unfolding passes all_hold check_streambuf_limit os_read loop_of
  check_streambuf_limit-passes p =
      rw
        (
          drain-create consume consume_lem (codes "Hello World!") 5 buffer_size p,
          drain-create consume consume_lem (codes " World! This is a Test") 5 buffer_size p,
        )
        refl
