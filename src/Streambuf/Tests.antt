-- ===== src/Streambuf/Tests.antt =====
-- The device at a concrete streambuf.
use moose_tools.Prelude.{◌≡◌, refl, pos, some, [], codes, drop, arith}
use moose_tools.Streambuf.{create}
use moose_tools.Streambuf.Draining.{drain, drain-create}

-- A limit of 5, and reads of 3 bytes at a time.
drain-create_example :
    drain (λ s n. drop n s) (λ s n h. refl) 6 3 (create (codes "Hello, world") (pos 5)) []
    ≡ some (record { streambuf = codes ", world"; bytes_remaining = pos 0 }, codes "Hello")
drain-create_example =
    drain-create (λ s n. drop n s) (λ s n h. refl) (codes "Hello, world") 5 3 (omega arith)
