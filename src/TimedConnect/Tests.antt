-- ===== src/TimedConnect/Tests.antt =====
-- A connect operation with concrete answers, and the theorems at concrete inputs.
use moose_tools.Prelude.{Bool, true, ◌≢◌, ◌↔◌, ◌⊎◌, ◌≡◌, refl, false, some, List, [], ◌∷◌, codes}
use moose_tools.Asio.{ErrorCode, Timer, Device, v4}
use moose_tools.TimedConnect.{Point, Connect, complete, resume, resolve, connect, on_timer}
use moose_tools.TimedConnect.Run.{
  Event, resolves, connects, opens, expires, timer_runs, step, run, begun, react,
}
use moose_tools.TimedConnect.Afterwards.{run-left_alone}
use moose_tools.TimedConnect.EndToEnd.{attempt, is_known, run-begun-verdict}
use moose_tools.TimedConnect.Settled.{IsSettled, run-begun-IsSettled}
use moose_tools.TimedConnect.Completion.{verdict}

abbrev closed : Device
closed = record { is_open = false; timer = Timer.unused }

abbrev operation : Connect
operation = record {
  protocol = 4;
  hostname = some (codes "proxy");
  portstr = some (codes "1080");
  point = Point.begin;
}

abbrev events : List Event
events =
    resolves ErrorCode.success (v4 10 0 0 1 ∷ [])
    ∷ opens
    ∷ connects ErrorCode.success
    ∷ timer_runs
    ∷ []

run-begun-IsSettled_example : IsSettled (run (begun operation closed) events)
run-begun-IsSettled_example = run-begun-IsSettled operation closed events refl tt

-- The socket is closed when the connection is answered.
run-begun-verdict_example :
    (step
      (attempt
        (begun operation closed)
        []
        ErrorCode.success
        (v4 10 0 0 1 ∷ [])
        (opens ∷ expires ∷ timer_runs ∷ []))
      (connects ErrorCode.success)).pending
    ≡ complete ErrorCode.timed_out
unfolding verdict is_known run step react begun resume resolve connect on_timer
run-begun-verdict_example =
    run-begun-verdict operation closed [] (opens ∷ expires ∷ timer_runs ∷ []) ErrorCode.success
      ErrorCode.success (v4 10 0 0 1 ∷ []) refl tt (tt, (tt, (tt, tt)))

-- The time is over just before the connection is made.
abbrev late : List Event
late =
    resolves ErrorCode.success (v4 10 0 0 1 ∷ [])
    ∷ opens
    ∷ expires
    ∷ connects ErrorCode.success
    ∷ []

run-left_alone_example :
    let c = run (begun operation closed) late in
    ((fs : List Event) → (run c fs).device.is_open ≡ true)
    ↔ ((Timer.expired ≢ Timer.expired) ⊎ (◌≡◌ {A = Bool} true false))
unfolding run step react begun resume resolve connect
run-left_alone_example = run-left_alone operation closed late ErrorCode.success refl tt refl
