-- ===== src/Socks4/Closed.antt =====
-- SOCKS4.hpp: the handshake opens no socket.
use moose_tools.Prelude.{
  ℕ, ◌≡◌, Bool, true, false, if◌then◌else◌, Option, List, ◌==◌, Bytes, length, arith,
}
use moose_tools.Asio.{ErrorCode, Timer, Device, Address, run_timer}
use moose_tools.Socks4.{
  Handshake, Action, async_resolve, async_write, async_read, Outcome, on_resolve, resolved,
  requested, sent, first_v4, on_transfer, transferred, written, received, replied, on_timer,
}
use moose_tools.Socks4.Run.{
  Config, Event, resolves, writes, reads, expires, timer_runs, react, step, settle, with_reply,
}

abbrev Opens : Device → Outcome → Type 0
Opens d (h, d', a) = d'.is_open ≡ true → d.is_open ≡ true

requested-Opens :
    (h : Handshake) (d : Device) (buffer address : Option Bytes)
    → Opens d (requested h d buffer address)
unfolding requested sent
requested-Opens h d buffer address o = ground arith

on_resolve-Opens :
    (h : Handshake) (d : Device) (e : ErrorCode) (results : List Address)
    → Opens d (on_resolve h d e results)
unfolding on_resolve resolved
on_resolve-Opens h d e results o =
    ground (arith, requested-Opens h d h.request_buffer (first_v4 results))

replied-Opens :
    (h : Handshake) (d : Device) (e : ErrorCode) (version status : Option ℕ)
    → Opens d (replied h d e version status)
unfolding replied
replied-Opens h d e version status o = ground arith

on_transfer-Opens : (h : Handshake) (d : Device) (e : ErrorCode) → Opens d (on_transfer h d e)
unfolding on_transfer transferred written received
on_transfer-Opens h d e o = ground (arith, replied-Opens h (record d { timer = d.timer }) e)

pub ran-Opens :
    (d : Device) (t : Timer) → (run_timer on_timer d t).is_open ≡ true → d.is_open ≡ true
unfolding on_timer
ran-Opens d t o = ground arith

expires-Opens :
    (c : Config) (a : Action) → (react c a expires).device.is_open ≡ true → c.device.is_open ≡ true
unfolding react
expires-Opens c async_resolve o = o
expires-Opens c _ o = o

runs-Opens :
    (c : Config) (a : Action)
    → (react c a timer_runs).device.is_open ≡ true
    → c.device.is_open ≡ true
unfolding react
runs-Opens c async_resolve o = ran-Opens c.device c.device.timer o
runs-Opens c _ o = ran-Opens c.device c.device.timer o

either-Opens :
    (c c' : Config) (b : Bool)
    → (c'.device.is_open ≡ true → c.device.is_open ≡ true)
    → (if b then c' else c).device.is_open ≡ true
    → c.device.is_open ≡ true
either-Opens c c' true h o = h o
either-Opens c c' false h o = o

react-Opens :
    (c : Config) (a : Action) (e : Event)
    → (react c a e).device.is_open ≡ true
    → c.device.is_open ≡ true
unfolding react
react-Opens c a expires o = expires-Opens c a o
react-Opens c a timer_runs o = runs-Opens c a o
react-Opens c async_resolve (resolves e results) o =
    on_resolve-Opens c.operation c.device e results o
react-Opens c (async_write _) (writes e) o = on_transfer-Opens c.operation c.device e o
react-Opens c (async_read n) (reads e reply) o =
    either-Opens c (settle (on_transfer (with_reply c.operation reply) c.device e))
      (length reply == n) (on_transfer-Opens (with_reply c.operation reply) c.device e) o
react-Opens c async_resolve e o = o
react-Opens c _ e o = o

-- A socket that is open after an event was open before.
pub step-Opens :
    (c : Config) (e : Event) → (step c e).device.is_open ≡ true → c.device.is_open ≡ true
unfolding step
step-Opens c e o = react-Opens c c.pending e o
