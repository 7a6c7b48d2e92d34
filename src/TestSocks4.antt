-- ===== src/TestSocks4.antt =====
-- test_socks4.cpp: the program that connects to a proxy and runs the handshake on the same socket.
-- The main thread's waits are in TestSocks4/Handover; here it goes on once an operation has completed.
pub mod Handover
pub mod Validity
pub mod Milestones
pub mod Success
pub mod Isolation
pub mod StaleTimer
pub mod Exit
pub mod Proxied
pub mod CommandLine
mod Tests
use moose_tools.Prelude.{ℕ, Bool, true, false, not, ◌&&◌, List, [], ◌∷◌, Bytes, if◌then◌else◌}
use moose_tools.Asio.{ErrorCode, is_error, Timer, Device}
use moose_tools.TimedConnect
use moose_tools.Socks4

-- The main thread waits for the connection or for the handshake, with the handshake's state and
-- timer, or has returned EXIT_SUCCESS or EXIT_FAILURE.
pub data Stage : Type 0 where
  connecting : Stage
  shaking : Socks4.Handshake → Socks4.Action → Timer → Stage
  exited : Bool → Stage

-- Both operations have timers of their own and share the socket. The timer of the connection is still
-- there during the handshake.
pub record Program : Type 0 where
  pub is_open : Bool
  pub connect : TimedConnect.Connect
  pub connect_pending : TimedConnect.Action
  pub connect_timer : Timer
  pub stage : Stage

pub data Event : Type 0 where
  connect_event : TimedConnect.Run.Event → Event
  handshake_event : Socks4.Run.Event → Event
  goes_on : Event

-- What each operation sees of the program.
unfoldable pub connect_config : Program → TimedConnect.Run.Config
connect_config p = record {
  operation = p.connect;
  device = record { is_open = p.is_open; timer = p.connect_timer };
  pending = p.connect_pending;
}

unfoldable pub handshake_config :
    Program → Socks4.Handshake → Socks4.Action → Timer → Socks4.Run.Config
handshake_config p h a t = record {
  operation = h;
  device = record { is_open = p.is_open; timer = t };
  pending = a;
}

unfoldable pub with_connect : Program → TimedConnect.Run.Config → Program
with_connect p c = record p {
  is_open = c.device.is_open;
  connect = c.operation;
  connect_pending = c.pending;
  connect_timer = c.device.timer;
}

unfoldable pub with_handshake : Program → Socks4.Run.Config → Program
with_handshake p c = record p {
  is_open = c.device.is_open;
  stage = shaking c.operation c.pending c.device.timer;
}

-- The port of the target, and what the buffers hold that the handshake allocates.
module _ (target_port : ℕ) (request reply : Bytes) where
  -- The socket is tested and the error too: the handshake is started, or the program fails.
  unfoldable pub connected : Program → TimedConnect.Action → Program
  unfolding with_handshake
  connected p (TimedConnect.complete error) =
      if p.is_open && not (is_error error)
      then with_handshake p (
          Socks4.Run.begun target_port request reply
            (record { is_open = p.is_open; timer = Timer.unused }))
      else record p { stage = exited false }
  connected p _ = p

  -- The socket is closed at the end.
  unfoldable pub shaken : Program → Socks4.Action → Program
  shaken p (Socks4.complete error) =
      if p.is_open && not (is_error error)
      then record p { is_open = false; stage = exited true }
      else record p { stage = exited false }
  shaken p _ = p

  unfoldable pub step_at : Program → Stage → Event → Program
  unfolding connected shaken connect_config handshake_config with_connect with_handshake
  step_at p (exited status) e = p
  step_at p connecting (connect_event e) =
      with_connect p (TimedConnect.Run.step (connect_config p) e)
  step_at p connecting (handshake_event e) = p
  step_at p connecting goes_on = connected p p.connect_pending
  step_at p (shaking h a t) (connect_event e) =
      with_connect p (TimedConnect.Run.step (connect_config p) e)
  step_at p (shaking h a t) (handshake_event e) =
      with_handshake p (Socks4.Run.step (handshake_config p h a t) e)
  step_at p (shaking h a t) goes_on = shaken p a

  unfoldable pub step : Program → Event → Program
  unfolding step_at
  step p e = step_at p p.stage e

  unfoldable pub run : Program → List Event → Program
  run p [] = p
  run p (e ∷ es) = run (step p e) es

-- The program starts to connect; `lexical_cast` writes the port.
unfoldable pub begun : (ℕ → Bytes) → Bytes → ℕ → Program
unfolding with_connect
begun lexical_cast socks_hostname socks_port =
    with_connect
      (record {
        is_open = false;
        connect = TimedConnect.initiate lexical_cast 0 socks_hostname socks_port;
        connect_pending = TimedConnect.nothing;
        connect_timer = Timer.unused;
        stage = connecting;
      })
      (TimedConnect.Run.begun (TimedConnect.initiate lexical_cast 0 socks_hostname socks_port)
        (record { is_open = false; timer = Timer.unused }))
