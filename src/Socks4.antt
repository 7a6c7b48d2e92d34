-- ===== src/Socks4.antt =====
-- SOCKS4.hpp: the handshake as the state machine that `async_compose` drives.
pub mod Request
pub mod Run
pub mod Safety
pub mod Progress
pub mod Verdict
pub mod Stages
pub mod EndToEnd
pub mod Granted
pub mod Closed
pub mod Proxy
pub mod Afterwards
mod Tests
use moose_tools.Prelude.{
  ℕ, ◌/◌, ◌%◌, ◌^◌, Bool, true, false, not, Option, none, some, List, [], ◌∷◌, Bytes, codes, ◌==◌,
  if◌then◌else◌, length, get_elem?, take,
}
use moose_tools.Asio.{
  ErrorCode, is_error, is_aborted, Timer, Device, close, start_timer, cancelled_timer, cancel,
  Address, v4, v6,
}
use Request.{fill}

pub data State : Type 0 where
  start handle_resolve handle_request_write handle_read_response : State

-- `async_socks4_handshake_implementation`; a buffer that was reset is `none`.
pub record Handshake : Type 0 where
  pub state : State
  pub target_port : ℕ
  pub request_buffer : Option Bytes
  pub reply_buffer : Option Bytes

-- How a handler ends: with an asynchronous operation, or with the completion; `undefined` is a null
-- or overrun buffer, `terminated` a failed assertion.
pub data Action : Type 0 where
  async_resolve terminated undefined : Action
  async_write : Bytes → Action
  async_read : ℕ → Action
  complete : ErrorCode → Action

abbrev pub Outcome : Type 0
Outcome = Handshake × Device × Action

abbrev request_length : ℕ
request_length = 14

abbrev reply_length : ℕ
reply_length = 8

-- `async_socks4_handshake`: what `new unsigned char[]` finds in the buffers is arbitrary.
unfoldable pub initiate : ℕ → Bytes → Bytes → Handshake
initiate port request reply = record {
  state = State.start;
  target_port = port;
  request_buffer = some request;
  reply_buffer = some reply;
}

-- The initializing function; the state is `m_state`.
started : Handshake → Device → State → Outcome
started h d State.start = (record h { state = State.handle_resolve }, d, async_resolve)
started h d _ = (h, d, terminated)

unfoldable pub on_start : Handshake → Device → Outcome
unfolding started
on_start h d = started h d h.state

-- The loop over the results, which skips IPv6 addresses.
first_v4 : List Address → Option Bytes
first_v4 [] = none
first_v4 (v6 _ ∷ results) = first_v4 results
first_v4 (v4 a b c d ∷ results) = some (a ∷ b ∷ c ∷ d ∷ [])

sent : Handshake → Device → Option Bytes → Outcome
sent h d none = (h, d, undefined)
sent h d (some buffer) = (
  record h { state = State.handle_request_write; request_buffer = some buffer },
  start_timer d,
  async_write (take request_length buffer),
)

requested : Handshake → Device → Option Bytes → Option Bytes → Outcome
unfolding sent
requested h d buffer none = (h, d, complete ErrorCode.host_not_found)
requested h d none (some address) = (h, d, undefined)
requested h d (some buffer) (some address) = sent h d (fill buffer h.target_port address)

resolved : Handshake → Device → List Address → State → Outcome
unfolding requested first_v4
resolved h d results State.handle_resolve = requested h d h.request_buffer (first_v4 results)
resolved h d results _ = (h, d, terminated)

-- The handler of `async_resolve`.
unfoldable pub on_resolve : Handshake → Device → ErrorCode → List Address → Outcome
unfolding resolved
on_resolve h d error results =
    if is_error error then (h, d, complete error) else resolved h d results h.state

-- The callback of the timer's wait.
unfoldable pub on_timer : ErrorCode → Device → Device
on_timer error d = if is_aborted error then d else close d

pub written : Handshake → Device → ErrorCode → Outcome
written h d error =
    if is_error error
    then (h, d, complete error)
    else if not d.is_open
    then (h, d, complete ErrorCode.timed_out)
    else (record h { state = State.handle_read_response }, d, async_read reply_length)

abbrev request_granted : ℕ
request_granted = 0x5a

-- The error of a status that is not `request_granted`; of any other value it stays what it was.
refusal : ℕ → ErrorCode → ErrorCode
refusal status error =
    if status == 0x5b
    then ErrorCode.interrupted
    else if status == 0x5c
    then ErrorCode.operation_not_permitted
    else if status == 0x5d
    then ErrorCode.operation_not_permitted
    else error

released : Handshake → Handshake
released h = record h { request_buffer = none; reply_buffer = none }

replied : Handshake → Device → ErrorCode → Option ℕ → Option ℕ → Outcome
unfolding refusal released
replied h d error (some version) (some status) =
    if not (version == 0)
    then (h, d, complete ErrorCode.protocol_not_supported)
    else if not (status == request_granted)
    then (released h, close d, complete (refusal status error))
    else (released h, d, complete error)
replied h d error _ _ = (h, d, undefined)

byte_at : Option Bytes → ℕ → Option ℕ
byte_at none i = none
byte_at (some buffer) i = get_elem? buffer i

pub received : Handshake → Device → ErrorCode → Outcome
unfolding replied byte_at
received h d error =
    if is_error error
    then (h, d, complete (if is_aborted error then ErrorCode.timed_out else error))
    else if not d.is_open
    then (h, d, complete ErrorCode.timed_out)
    else replied h d error (byte_at h.reply_buffer 0) (byte_at h.reply_buffer 1)

-- The handler of both `async_write` and `async_read`; the state is `m_state`.
transferred : Handshake → Device → ErrorCode → State → Outcome
unfolding written received
transferred h d error State.handle_request_write = written h d error
transferred h d error State.handle_read_response = received h (cancel d) error
transferred h d error _ = (h, cancel d, terminated)

unfoldable pub on_transfer : Handshake → Device → ErrorCode → Outcome
unfolding transferred
on_transfer h d error = transferred h d error h.state
