-- ===== src/TimedConnect/Run.antt =====
-- TimedConnect.hpp: a connect operation together with its environment, which answers the
-- asynchronous operations, opens the socket while it connects, and lets the timer run out. An answer
-- to an operation that is not under way is ignored.
use moose_tools.Prelude.{true, List, [], ◌∷◌}
use moose_tools.Asio.{ErrorCode, Device, Address, expired_timer, run_timer}
use moose_tools.TimedConnect.{
  Connect, Action, async_resolve, async_connect, Outcome, resume, on_timer,
}

pub record Config : Type 0 where
  pub operation : Connect
  pub device : Device
  pub pending : Action

pub data Event : Type 0 where
  resolves : ErrorCode → List Address → Event
  connects : ErrorCode → Event
  opens expires timer_runs : Event

abbrev pub settle : Outcome → Config
settle (c, d, a) = record { operation = c; device = d; pending = a }

unfoldable pub react : Config → Action → Event → Config
react c (async_resolve _) (resolves e results) = settle (resume c.operation c.device e results)
react c (async_connect _) (connects e) = settle (resume c.operation c.device e [])
react c (async_connect _) opens = record c { device = record (c.device) { is_open = true } }
react c a expires = record c { device = record (c.device) { timer = expired_timer c.device.timer } }
react c a timer_runs = record c { device = run_timer on_timer c.device c.device.timer }
react c _ _ = c

unfoldable pub step : Config → Event → Config
unfolding react
step c e = react c c.pending e

unfoldable pub run : Config → List Event → Config
run c [] = c
run c (e ∷ es) = run (step c e) es

-- The first call of the operator has no error and no results.
unfoldable pub begun : Connect → Device → Config
begun c d = settle (resume c d ErrorCode.success [])
