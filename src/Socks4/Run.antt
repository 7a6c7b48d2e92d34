-- ===== src/Socks4/Run.antt =====
-- SOCKS4.hpp: a handshake together with its environment, which answers the asynchronous operations
-- and lets the timer run out. An answer to an operation that is not under way is ignored.
use moose_tools.Prelude.{ℕ, some, List, [], ◌∷◌, Bytes, ◌==◌, if◌then◌else◌, length}
use moose_tools.Asio.{ErrorCode, Device, Address, expired_timer, run_timer}
use moose_tools.Socks4.{
  Handshake, Action, async_resolve, async_write, async_read, Outcome, initiate, on_start,
  on_resolve, on_transfer, on_timer,
}

-- `pending` is what the last handler ended with.
pub record Config : Type 0 where
  pub operation : Handshake
  pub device : Device
  pub pending : Action

pub data Event : Type 0 where
  resolves : ErrorCode → List Address → Event
  writes : ErrorCode → Event
  reads : ErrorCode → Bytes → Event
  expires timer_runs : Event

abbrev pub settle : Outcome → Config
settle (h, d, a) = record { operation = h; device = d; pending = a }

-- `async_read` overwrites the buffer, which keeps its length.
abbrev pub with_reply : Handshake → Bytes → Handshake
with_reply h reply = record h { reply_buffer = some reply }

unfoldable pub react : Config → Action → Event → Config
react c async_resolve (resolves e results) = settle (on_resolve c.operation c.device e results)
react c (async_write _) (writes e) = settle (on_transfer c.operation c.device e)
react c (async_read n) (reads e reply) =
    if length reply == n then settle (on_transfer (with_reply c.operation reply) c.device e) else c
react c a expires = record c { device = record (c.device) { timer = expired_timer c.device.timer } }
react c a timer_runs = record c { device = run_timer on_timer c.device c.device.timer }
react c _ _ = c

unfoldable pub step : Config → Event → Config
unfolding react
step c e = react c c.pending e

unfoldable pub run : Config → List Event → Config
run c [] = c
run c (e ∷ es) = run (step c e) es

unfoldable pub begun : ℕ → Bytes → Bytes → Device → Config
begun port request reply d = settle (on_start (initiate port request reply) d)
