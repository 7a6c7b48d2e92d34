-- ===== src/TimedConnect.antt =====
-- TimedConnect.hpp: the resolve and connect operation as the coroutine that `async_compose` drives.
pub mod Run
pub mod Settled
pub mod Completion
pub mod Stages
pub mod EndToEnd
pub mod Linked
pub mod Quiet
pub mod Afterwards
mod Tests
use moose_tools.Prelude.{
  ℕ, Bool, true, false, not, Option, none, some, List, [], ◌∷◌, Bytes, ◌==◌, if◌then◌else◌,
}
use moose_tools.Asio.{
  ErrorCode, is_error, is_aborted, Timer, Device, close, start_timer, cancel, Address,
}

-- Where the coroutine goes on; `ended` after a `return` and at its end.
pub data Point : Type 0 where
  begin resolving connecting ended : Point

-- `async_timed_connect_implementation`; a string that was reset is `none`.
pub record Connect : Type 0 where
  pub protocol : ℕ
  pub hostname : Option Bytes
  pub portstr : Option Bytes
  pub point : Point

-- The protocol that `async_resolve` is asked for.
pub data Family : Type 0 where
  any_family v4_only v6_only : Family

-- How a call of the operator ends; `nothing` is a call of the ended coroutine.
pub data Action : Type 0 where
  async_resolve : Family → Action
  async_connect : List Address → Action
  complete : ErrorCode → Action
  nothing : Action

abbrev pub Outcome : Type 0
Outcome = Connect × Device × Action

-- `async_timed_connect`; `lexical_cast` writes the port.
unfoldable pub initiate : (ℕ → Bytes) → ℕ → Bytes → ℕ → Connect
initiate lexical_cast protocol hostname port = record {
  protocol = protocol;
  hostname = some hostname;
  portstr = some (lexical_cast port);
  point = Point.begin;
}

abbrev at_point : Connect → Point → Connect
at_point c p = record c { point = p }

unfoldable pub resolve : Connect → Device → Outcome
resolve c d =
    if c.protocol == 0
    then (at_point c Point.resolving, d, async_resolve any_family)
    else if c.protocol == 4
    then (at_point c Point.resolving, d, async_resolve v4_only)
    else if c.protocol == 6
    then (at_point c Point.resolving, d, async_resolve v6_only)
    else (at_point c Point.ended, d, complete ErrorCode.no_protocol_option)

unfoldable pub connect : Connect → Device → ErrorCode → List Address → Outcome
connect c d error results =
    if is_error error
    then (at_point c Point.ended, d, complete error)
    else (at_point c Point.connecting, start_timer d, async_connect results)

unfoldable pub finish : Connect → Device → ErrorCode → Outcome
finish c d error =
    if is_error error
    then (
      at_point c Point.ended,
      d,
      complete (if is_aborted error then ErrorCode.timed_out else error),
    )
    else if not d.is_open
    then (at_point c Point.ended, d, complete ErrorCode.timed_out)
    else (record c { hostname = none; portstr = none; point = Point.ended }, d, complete error)

-- The body of `reenter`, from the point where it goes on.
unfoldable pub resumed : Connect → Device → ErrorCode → List Address → Point → Outcome
unfolding resolve connect finish
resumed c d error results Point.begin = resolve c d
resumed c d error results Point.resolving = connect c d error results
resumed c d error results Point.connecting = finish c (cancel d) error
resumed c d error results Point.ended = (c, d, nothing)

-- `operator()`.
unfoldable pub resume : Connect → Device → ErrorCode → List Address → Outcome
unfolding resumed
resume c d error results = resumed c d error results c.point

-- The callback of the timer's wait.
unfoldable pub on_timer : ErrorCode → Device → Device
on_timer error d = if is_aborted error then d else close d
