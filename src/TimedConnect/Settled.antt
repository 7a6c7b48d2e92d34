-- ===== src/TimedConnect/Settled.antt =====
-- TimedConnect.hpp: the coroutine stands where the operation under way goes on.
use moose_tools.Prelude.{◌≡◌, refl, List, [], ◌∷◌, arith, Bool-cases, inl, inr}
use moose_tools.Asio.{ErrorCode, Device, Address, cancel}
use moose_tools.Asio.Quiet.{IsIdle, cancelled-IsIdle, expired-IsIdle, ran-IsIdle}
use moose_tools.TimedConnect.{
  Point, Connect, Action, async_resolve, async_connect, complete, nothing, Outcome, resume, resolve,
  connect, finish, resumed, on_timer,
}
use moose_tools.TimedConnect.Run.{
  Config, Event, resolves, connects, opens, expires, timer_runs, react, step, run, begun,
}

-- What holds while an action is under way: the coroutine waits for it, and the timer waits for
-- nothing before the connection is tried, nor after the completion.
abbrev pub Fits : Connect → Device → Action → Type 0
Fits c d (async_resolve _) = (c.point ≡ Point.resolving) × IsIdle d.timer
Fits c d (async_connect _) = c.point ≡ Point.connecting
Fits c d (complete _) = (c.point ≡ Point.ended) × IsIdle d.timer
Fits c d nothing = ⊥

abbrev Sound : Outcome → Type 0
Sound (c, d, a) = Fits c d a

abbrev pub IsSettled : Config → Type 0
IsSettled c = Fits c.operation c.device c.pending

connect-Sound :
    (c : Connect) (d : Device) (e : ErrorCode) (results : List Address)
    → IsIdle d.timer
    → Sound (connect c d e results)
unfolding connect
connect-Sound c d ErrorCode.success results i = refl
connect-Sound c d _ results i = (refl, i)

finish-Sound : (c : Connect) (d : Device) (e : ErrorCode) → IsIdle d.timer → Sound (finish c d e)
unfolding finish
finish-Sound c d ErrorCode.success i = elim (Bool-cases d.is_open) [
  | inl o ↦ rw (o, finish) (refl, i)
  | inr o ↦ rw (o, finish) (refl, i)
]
finish-Sound c d _ i = (refl, i)

react-Sound :
    (c : Connect) (d : Device) (a : Action) (e : Event)
    → Fits c d a
    → IsSettled (react (record { operation = c; device = d; pending = a }) a e)
unfolding react resume
react-Sound c d (async_resolve _) (resolves e results) (p, i) =
    rw (p, resumed) (connect-Sound c d e results i)
react-Sound c d (async_connect _) (connects e) p =
    rw (p, resumed) (finish-Sound c (cancel d) e (cancelled-IsIdle d.timer))
react-Sound c d (async_connect _) opens p = p
react-Sound c d (async_connect _) expires p = p
react-Sound c d (async_connect _) timer_runs p = p
react-Sound c d (async_resolve _) expires (p, i) = (p, expired-IsIdle d.timer)
react-Sound c d (async_resolve _) timer_runs (p, i) = (p, ran-IsIdle on_timer d d.timer refl i)
react-Sound c d (complete _) expires (p, i) = (p, expired-IsIdle d.timer)
react-Sound c d (complete _) timer_runs (p, i) = (p, ran-IsIdle on_timer d d.timer refl i)
react-Sound c d nothing e f = absurd f
react-Sound c d a e f = f

pub step-IsSettled : (c : Config) (e : Event) → IsSettled c → IsSettled (step c e)
unfolding step
step-IsSettled c e f = react-Sound c.operation c.device c.pending e f

run-IsSettled : (c : Config) (es : List Event) → IsSettled c → IsSettled (run c es)
unfolding run
run-IsSettled c [] f = f
run-IsSettled c (e ∷ es) f = run-IsSettled (step c e) es (step-IsSettled c e f)

resolve-Sound : (c : Connect) (d : Device) → IsIdle d.timer → Sound (resolve c d)
unfolding resolve
resolve-Sound c d i = ground arith

pub begun-IsSettled :
    (c : Connect) (d : Device) → c.point ≡ Point.begin → IsIdle d.timer → IsSettled (begun c d)
unfolding begun resume
begun-IsSettled c d p i = rw (p, resumed) (resolve-Sound c d i)

-- For an operation that starts with no wait on its timer: whatever its environment does, the
-- coroutine stands where the operation under way goes on, it is never called once it has ended, and
-- no wait on the timer is left behind an operation that has completed.
pub run-begun-IsSettled :
    (c : Connect) (d : Device) (es : List Event)
    → c.point ≡ Point.begin
    → IsIdle d.timer
    → IsSettled (run (begun c d) es)
run-begun-IsSettled c d es p i = run-IsSettled (begun c d) es (begun-IsSettled c d p i)
