-- ===== src/Socks4/Proxy.antt =====
-- SOCKS4.hpp: the handshake with a proxy that reads the request and answers it.
use moose_tools.Prelude.{
  ℕ, ◌≡◌, ◌<◌, ◌^◌, ◌/◌, ◌%◌, ◌++◌, refl, ap, sym, ◌>>=◌, ◌∙◌, Bool, true, false, Option, none,
  some, List, [], ◌∷◌, map, Bytes, if◌then◌else◌, length,
}
use moose_tools.Asio.{ErrorCode, Timer, Device, Address, v4, v6}
use moose_tools.Socks4.{
  State, started, resolved, requested, sent, transferred, written, received, replied, byte_at,
  refusal, Action, async_write, complete, first_v4, on_resolve, on_start, on_transfer, initiate,
}
use moose_tools.Socks4.Request.{
  Request, connect, user_id, parse_request, parse_request-fill, fill_lem,
}
use moose_tools.Socks4.Run.{Config, Event, resolves, writes, reads, step, react, run, begun}

-- A proxy replies to a request that it understands, and else not at all.
reply_to : Bool → Bytes
reply_to granted = 0 ∷ (if granted then 0x5a else 0x5b) ∷ 0 ∷ 0 ∷ 0 ∷ 0 ∷ 0 ∷ 0 ∷ []

replies : (Request → Bool) → Option Request → List Event
unfolding reply_to
replies grants none = []
replies grants (some r) = reads ErrorCode.success (reply_to (grants r)) ∷ []

-- What a proxy with the rule `grants` answers to the operation that is under way.
pub answers : (Request → Bool) → Action → List Event
unfolding replies
answers grants (async_write bytes) = writes ErrorCode.success ∷ replies grants (parse_request bytes)
answers grants _ = []

first_v4-append :
    (sixes : List Bytes) (a b c d : ℕ) (others : List Address)
    → first_v4 (map v6 sixes ++ v4 a b c d ∷ others) ≡ some (a ∷ b ∷ c ∷ d ∷ [])
unfolding first_v4
first_v4-append [] a b c d others = refl
first_v4-append (s ∷ sixes) a b c d others = first_v4-append sixes a b c d others

abbrev fresh : Device
fresh = record { is_open = true; timer = Timer.unused }

abbrev filled : ℕ → ℕ → ℕ → ℕ → ℕ → Bytes
filled port a b c d =
    4 ∷ 1 ∷ (port / 256 % 256) ∷ (port % 256) ∷ a ∷ b ∷ c ∷ d ∷ (user_id ++ 0 ∷ [])

-- The handshake when the request has been handed to the socket.
abbrev writing : ℕ → Bytes → Bytes → Config
writing port buffer reply = record {
  operation = record {
    state = State.handle_request_write;
    target_port = port;
    request_buffer = some buffer;
    reply_buffer = some reply;
  };
  device = record { is_open = true; timer = Timer.waiting };
  pending = async_write buffer;
}

step-resolves :
    (port : ℕ) (request reply : Bytes) (results : List Address) (a b c d : ℕ)
    → length request ≡ 14
    → first_v4 results ≡ some (a ∷ b ∷ c ∷ d ∷ [])
    → step (begun port request reply fresh) (resolves ErrorCode.success results)
      ≡ writing port (filled port a b c d) reply
unfolding step begun react on_start initiate on_resolve started resolved requested sent
step-resolves port request reply results a b c d l f = rw (f, fill_lem request port a b c d l) refl

parse_request-filled :
    (request : Bytes) (port a b c d : ℕ)
    → length request ≡ 14
    → port < 2 ^ 16
    → parse_request (filled port a b c d) ≡ some (connect port (v4 a b c d) user_id)
parse_request-filled request port a b c d l fits =
    sym (ap (λ o. o >>= parse_request) (fill_lem request port a b c d l))
    ∙ parse_request-fill request port a b c d l fits

run-answered :
    (port : ℕ) (buffer reply : Bytes) (granted : Bool)
    → let s =
        run
          (writing port buffer reply)
          (writes ErrorCode.success ∷ reads ErrorCode.success (reply_to granted) ∷ []) in
      (s.pending ≡ complete (if granted then ErrorCode.success else ErrorCode.interrupted))
      × (s.device.is_open ≡ granted)
      × (s.device.timer ≡ Timer.cancelled)
unfolding run step react on_transfer transferred written received replied byte_at refusal reply_to
run-answered port buffer reply true = (refl, refl, refl)
run-answered port buffer reply false = (refl, refl, refl)

-- A new handshake on an open socket, with a request buffer of 14 bytes and for a 16-bit port, whose
-- target's name has an IPv4 address behind any IPv6 ones, and a proxy that reads the request which the
-- handshake writes, and grants or refuses it by any rule on the port, the address and the user: the
-- handshake succeeds and the socket stays open exactly if the rule grants the port, the first IPv4
-- address and the user Moose; else it is interrupted and the socket is closed. The timer is cancelled.
pub run-answers :
    (grants : Request → Bool) (port : ℕ) (request reply : Bytes) (sixes : List Bytes) (a b c d : ℕ)
    (others : List Address)
    → length request ≡ 14
    → port < 2 ^ 16
    → let results = map v6 sixes ++ v4 a b c d ∷ others in
      let asked = step (begun port request reply fresh) (resolves ErrorCode.success results) in
      let s = run asked (answers grants asked.pending) in
      let granted = grants (connect port (v4 a b c d) user_id) in
      (s.pending ≡ complete (if granted then ErrorCode.success else ErrorCode.interrupted))
      × (s.device.is_open ≡ granted)
      × (s.device.timer ≡ Timer.cancelled)
unfolding answers replies
run-answers grants port request reply sixes a b c d others l fits =
    rw
      (
        step-resolves port request reply (map v6 sixes ++ v4 a b c d ∷ others) a b c d l
            (first_v4-append sixes a b c d others),
        parse_request-filled request port a b c d l fits,
      )
      (run-answered port (filled port a b c d) reply (grants (connect port (v4 a b c d) user_id)))
