-- ===== src/Asio.antt =====
-- What SOCKS4.hpp and TimedConnect.hpp see of Boost.Asio: error codes, a socket that is open or
-- closed, and a steady timer with one wait. The operations themselves are carried out by the
-- environment; their results reach the code as arguments of its handlers.
pub mod Quiet
use moose_tools.Prelude.{ℕ, ◌≡◌, refl, Bool, true, false, not, Bytes}

-- The error codes that the code names; `failure` is any other.
pub data ErrorCode : Type 0 where
  success operation_aborted timed_out host_not_found no_protocol_option : ErrorCode
  protocol_not_supported interrupted operation_not_permitted : ErrorCode
  failure : ℕ → ErrorCode

-- `if (n_error)`
abbrev pub is_error : ErrorCode → Bool
is_error ErrorCode.success = false
is_error _ = true

abbrev pub is_aborted : ErrorCode → Bool
is_aborted ErrorCode.operation_aborted = true
is_aborted _ = false

-- A wait is started, is cancelled, or its time is over; in the last two states its handler is queued.
pub data Timer : Type 0 where
  unused waiting cancelled expired finished : Timer

-- Its time is over, and its handler is queued.
abbrev pub is_expired : Timer → Bool
is_expired Timer.expired = true
is_expired _ = false

pub record Device : Type 0 where
  pub is_open : Bool
  pub timer : Timer

abbrev pub close : Device → Device
close d = record d { is_open = false }

-- `expires_after` and `async_wait`
abbrev pub start_timer : Device → Device
start_timer d = record d { timer = Timer.waiting }

-- A handler that is already queued is not reached by `cancel`.
abbrev pub cancelled_timer : Timer → Timer
cancelled_timer Timer.waiting = Timer.cancelled
cancelled_timer t = t

abbrev pub cancel : Device → Device
cancel d = record d { timer = cancelled_timer d.timer }

-- What the environment does to the timer: its time is over, and a queued handler runs.
abbrev pub expired_timer : Timer → Timer
expired_timer Timer.waiting = Timer.expired
expired_timer t = t

abbrev pub run_timer : (ErrorCode → Device → Device) → Device → Timer → Device
run_timer handler d Timer.cancelled = record (handler ErrorCode.operation_aborted d) {
  timer = Timer.finished;
}
run_timer handler d Timer.expired = record (handler ErrorCode.success d) { timer = Timer.finished }
run_timer handler d _ = d

pub data Address : Type 0 where
  v4 : ℕ → ℕ → ℕ → ℕ → Address
  v6 : Bytes → Address

-- A code that is no error is the success.
pub success_of : (e : ErrorCode) → is_error e ≡ false → e ≡ ErrorCode.success
success_of ErrorCode.success h = refl
success_of _ h = cc

-- A handler that closes the socket unless the wait was aborted: after `cancel`, an open socket stays
-- open exactly if the timer had not run out.
pub run_timer-cancelled :
    (handler : ErrorCode → Device → Device) (d : Device) (t : Timer)
    → ((d' : Device) → handler ErrorCode.operation_aborted d' ≡ d')
    → ((d' : Device) → handler ErrorCode.success d' ≡ close d')
    → d.is_open ≡ true
    → (run_timer handler d (cancelled_timer t)).is_open ≡ not (is_expired t)
run_timer-cancelled handler d Timer.unused h h' o = o
run_timer-cancelled handler d Timer.waiting h h' o = rw h o
run_timer-cancelled handler d Timer.cancelled h h' o = rw h o
run_timer-cancelled handler d Timer.expired h h' o = rw h' refl
run_timer-cancelled handler d Timer.finished h h' o = o
