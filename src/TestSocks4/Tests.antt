-- ===== src/TestSocks4/Tests.antt =====
-- The program at concrete answers.
use moose_tools.Prelude.{
  Option, ◌&&◌, if◌then◌else◌, none, Bool, ◌==◌, ℕ, ◌≡◌, ◌≢◌, refl, true, false, some, [], ◌∷◌,
  List, Bytes, codes, Any, map, ◌++◌,
}
use moose_tools.Asio.{ErrorCode, Timer, v4}
use moose_tools.TimedConnect
use moose_tools.Socks4
use moose_tools.Socks4.Request.{fill}
use moose_tools.TestSocks4.{
  shaking, exited, Program, Event, connect_event, handshake_event, goes_on, step, run, begun,
}
use moose_tools.TestSocks4.Milestones.{is_linked, is_granted}
use moose_tools.TestSocks4.Success.{run-begun-succeeds}
use moose_tools.Socks4.Request.{Request, connect}
use moose_tools.Paths.{bytes_eq}
use moose_tools.TestSocks4.CommandLine.{Written}
use moose_tools.TestSocks4.Exit.{run-begun-exits}
use moose_tools.TestSocks4.StaleTimer.{run-expired}

abbrev request_memory : Bytes
request_memory = 9 ∷ 9 ∷ 9 ∷ 9 ∷ 9 ∷ 9 ∷ 9 ∷ 9 ∷ 9 ∷ 9 ∷ 9 ∷ 9 ∷ 9 ∷ 9 ∷ []

abbrev reply_memory : Bytes
reply_memory = 7 ∷ 7 ∷ 7 ∷ 7 ∷ 7 ∷ 7 ∷ 7 ∷ 7 ∷ []

abbrev no_digits : ℕ → Bytes
no_digits n = []

abbrev target : Socks4.Run.Event
target = Socks4.Run.resolves ErrorCode.success (v4 10 0 0 1 ∷ [])

abbrev granting : Socks4.Run.Event
granting = Socks4.Run.reads ErrorCode.success (0 ∷ 0x5a ∷ 0 ∷ 80 ∷ 10 ∷ 0 ∷ 0 ∷ 1 ∷ [])

-- Both operations succeed, and their cancelled timers' handlers run.
abbrev events : List Event
events =
    connect_event (TimedConnect.Run.resolves ErrorCode.success (v4 10 0 0 2 ∷ []))
    ∷ connect_event TimedConnect.Run.opens
    ∷ connect_event (TimedConnect.Run.connects ErrorCode.success)
    ∷ goes_on
    ∷ handshake_event target
    ∷ connect_event TimedConnect.Run.timer_runs
    ∷ handshake_event (Socks4.Run.writes ErrorCode.success)
    ∷ handshake_event granting
    ∷ handshake_event Socks4.Run.timer_runs
    ∷ goes_on
    ∷ []

succeeds :
    (run 80 request_memory reply_memory (begun no_digits (codes "proxy") 1080) events).stage
    ≡ exited true
unfolding run step begun TimedConnect.initiate TimedConnect.Run.begun TimedConnect.resume
    TimedConnect.on_timer TimedConnect.Run.step Socks4.Run.step Socks4.Run.begun Socks4.on_start
    Socks4.initiate Socks4.on_resolve Socks4.on_transfer Socks4.on_timer fill
succeeds = refl

run-begun-succeeds_example :
    Any (λ e. is_linked e ≡ true) events × Any (λ e. is_granted e ≡ true) events
run-begun-succeeds_example =
    run-begun-succeeds 80 request_memory reply_memory refl refl no_digits (codes "proxy") 1080
      events succeeds

abbrev connecting_events : List TimedConnect.Run.Event
connecting_events =
    TimedConnect.Run.resolves ErrorCode.success (v4 10 0 0 2 ∷ [])
    ∷ TimedConnect.Run.opens
    ∷ TimedConnect.Run.connects ErrorCode.success
    ∷ []

-- The handler of the connection's timer runs during the handshake, and the proxy refuses.
abbrev refused_events : List Event
refused_events =
    handshake_event target
    ∷ connect_event TimedConnect.Run.timer_runs
    ∷ handshake_event (Socks4.Run.writes ErrorCode.success)
    ∷ handshake_event (Socks4.Run.reads ErrorCode.success (0 ∷ 0x5b ∷ 0 ∷ 80 ∷ 10 ∷ 0 ∷ 0 ∷ 1 ∷ []))
    ∷ []

run-begun-exits_example :
    (run 80 request_memory reply_memory
      (begun no_digits (codes "proxy") 1080)
      (map connect_event connecting_events ++ goes_on ∷ (refused_events ++ goes_on ∷ []))).stage
    ≡ exited false
unfolding TimedConnect.initiate TimedConnect.Run.begun TimedConnect.resume TimedConnect.on_timer
    TimedConnect.Run.step TimedConnect.Run.run Socks4.Run.run Socks4.Run.step Socks4.Run.begun
    Socks4.on_start Socks4.initiate Socks4.on_resolve Socks4.on_transfer Socks4.on_timer fill
run-begun-exits_example =
    run-begun-exits 80 request_memory reply_memory no_digits (codes "proxy") 1080 connecting_events
      refused_events ErrorCode.success ErrorCode.interrupted refl tt (tt, (tt, (tt, (tt, tt)))) refl

-- A proxy that lets Moose connect to port 80 only.
abbrev web_only : Request → Bool
web_only (connect port address user) = port == 80

-- A command line that names the proxy only.
abbrev command_line : Written
command_line = record {
  help = false;
  socks_host = some (codes "proxy");
  socks_port = none;
  target_port = none;
}

abbrev one_digit : ℕ → Bytes
one_digit n = n ∷ []

-- A network where only the proxy listens, at port 1080.
abbrev listening : Option Bytes → Option Bytes → ErrorCode
listening (some h) (some port) =
    if bytes_eq h (codes "proxy") && bytes_eq port (1080 ∷ [])
    then ErrorCode.success
    else ErrorCode.failure 111
listening _ _ = ErrorCode.host_not_found

abbrev reading : Socks4.Handshake
reading = record {
  state = Socks4.handle_read_response;
  target_port = 80;
  request_buffer = some request_memory;
  reply_buffer = some reply_memory;
}

-- The reply is read, and the connection's timer is in the state given.
abbrev during : Timer → Program
during t = record {
  is_open = true;
  connect = record {
    protocol = 0;
    hostname = some [];
    portstr = some [];
    point = TimedConnect.ended;
  };
  connect_pending = TimedConnect.complete ErrorCode.success;
  connect_timer = t;
  stage = shaking reading (Socks4.async_read 8) Timer.waiting;
}

run-expired_example :
    (run 80 request_memory reply_memory
      (during Timer.expired)
      (connect_event TimedConnect.Run.timer_runs ∷ handshake_event granting ∷ goes_on ∷ [])).stage
    ≢ exited true
run-expired_example =
    run-expired 80 request_memory reply_memory (during Timer.expired) reading (Socks4.async_read 8)
      Timer.waiting (handshake_event granting ∷ goes_on ∷ []) refl (ErrorCode.success, refl) refl
