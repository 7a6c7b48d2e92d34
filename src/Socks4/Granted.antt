-- ===== src/Socks4/Granted.antt =====
-- SOCKS4.hpp: a handshake that has succeeded on an open socket has read a reply that grants it.
use moose_tools.Prelude.{
  ℕ, ◌≡◌, refl, Bool, true, false, not, ◌&&◌, List, [], ◌∷◌, Bytes, ◌==◌, length, arith, Bool-cases,
  ◌⊎◌, inl, inr, sym, ap, ◌∙◌,
}
use moose_tools.Asio.{ErrorCode, is_error, Device, Address, cancel, success_of, run_timer}
use moose_tools.Socks4.{
  State, Handshake, Action, async_resolve, async_write, async_read, complete, terminated, undefined,
  Outcome, on_transfer, on_start, initiate, received, replied, byte_at, written, transferred,
  on_timer,
}
use moose_tools.Socks4.Run.{
  Config, Event, resolves, writes, reads, expires, timer_runs, settle, react, step, with_reply,
  begun,
}
use moose_tools.Socks4.Safety.{Fits, IsSound}
use moose_tools.Socks4.Closed.{ran-Opens}
use moose_tools.Socks4.Stages.{Resolved, resolve_error, resolve-Resolved}

unfoldable pub succeeded_with : Bool → Action → Bool
succeeded_with is_open (complete e) = is_open && not (is_error e)
succeeded_with is_open _ = false

abbrev pub succeeded : Config → Bool
succeeded c = succeeded_with c.device.is_open c.pending

-- Success reported by the handler, and the socket still open.
abbrev outcome_succeeded : Outcome → Bool
outcome_succeeded (h, d, a) = succeeded_with d.is_open a

unfoldable pub granted : Event → Bool
granted (reads ErrorCode.success (version ∷ status ∷ rest)) = version == 0 && status == 0x5a
granted _ = false

-- An answer to the resolution does not complete the handshake with success.
Resolved-succeeded :
    (is_open : Bool) (results : List Address) (a : Action)
    → Resolved results a
    → succeeded_with is_open a ≡ false
unfolding succeeded_with
Resolved-succeeded is_open results a (inl (bytes, v, e)) = rw e refl
Resolved-succeeded is_open results a (inr (v, e)) = rw e (ground arith)

resolves-succeeded :
    (c : Config) (e : ErrorCode) (results : List Address)
    → IsSound c
    → c.pending ≡ async_resolve
    → succeeded (step c (resolves e results)) ≡ false
unfolding succeeded_with
resolves-succeeded c e results s p = elim (Bool-cases (is_error e)) [
  | inl bad ↦ rw (resolve_error c e results p bad) (ground arith)
  | inr good ↦ rw (success_of e good) (
      Resolved-succeeded (step c (resolves ErrorCode.success results)).device.is_open results
        (step c (resolves ErrorCode.success results)).pending (resolve-Resolved c results s p))
]

written-succeeded :
    (h : Handshake) (d : Device) (e : ErrorCode) → outcome_succeeded (written h d e) ≡ false
unfolding written succeeded_with
written-succeeded h d e = ground arith

received-succeeded :
    (h : Handshake) (d : Device) (e : ErrorCode) (reply : Bytes)
    → outcome_succeeded (received (with_reply h reply) d e) ≡ true
    → granted (reads e reply) ≡ true
unfolding received replied byte_at succeeded_with granted
received-succeeded h d ErrorCode.success [] s = ground arith
received-succeeded h d ErrorCode.success (version ∷ []) s = ground arith
received-succeeded h d ErrorCode.success (version ∷ status ∷ rest) s = ground arith
received-succeeded h d e reply s = ground arith

on_transfer_at :
    (h : Handshake) (d : Device) (e : ErrorCode) (q : State)
    → h.state ≡ q
    → on_transfer h d e ≡ transferred h d e q
unfolding on_transfer
on_transfer_at h d e q s = ap (transferred h d e) s

react_reads :
    (c : Config) (n : ℕ) (e : ErrorCode) (reply : Bytes)
    → c.operation.state ≡ State.handle_read_response
    → (length reply == n) ≡ true
    → react c (async_read n) (reads e reply)
      ≡ settle (received (with_reply c.operation reply) (cancel c.device) e)
unfolding react transferred
react_reads c n e reply q same = rw same (
    ap settle
      (on_transfer_at (with_reply c.operation reply) c.device e State.handle_read_response q))

react_ignored :
    (c : Config) (n : ℕ) (e : ErrorCode) (reply : Bytes)
    → (length reply == n) ≡ false
    → react c (async_read n) (reads e reply) ≡ c
unfolding react
react_ignored c n e reply other = rw other refl

pub succeeded_with_mono :
    (o o' : Bool) (a : Action)
    → (o' ≡ true → o ≡ true)
    → succeeded_with o' a ≡ true
    → succeeded_with o a ≡ true
unfolding succeeded_with
succeeded_with_mono true o' (complete e) h s = ground arith
succeeded_with_mono false true (complete e) h s = absurd (ground (arith, h refl))
succeeded_with_mono false false (complete e) h s = s
succeeded_with_mono o o' async_resolve h s = s
succeeded_with_mono o o' _ h s = s

expires-succeeded :
    (c : Config) (a : Action) → succeeded (react c a expires) ≡ true → succeeded c ≡ true
unfolding react
expires-succeeded c async_resolve s = s
expires-succeeded c _ s = s

runs-succeeded :
    (c : Config) (a : Action) → succeeded (react c a timer_runs) ≡ true → succeeded c ≡ true
unfolding react
runs-succeeded c async_resolve s =
    succeeded_with_mono c.device.is_open (run_timer on_timer c.device c.device.timer).is_open
      c.pending (ran-Opens c.device c.device.timer) s
runs-succeeded c _ s =
    succeeded_with_mono c.device.is_open (run_timer on_timer c.device c.device.timer).is_open
      c.pending (ran-Opens c.device c.device.timer) s

writes-succeeded :
    (c : Config) (bytes : Bytes) (e : ErrorCode)
    → c.operation.state ≡ State.handle_request_write
    → succeeded (react c (async_write bytes) (writes e)) ≡ false
unfolding react transferred
writes-succeeded c bytes e q =
    ap outcome_succeeded (on_transfer_at c.operation c.device e State.handle_request_write q)
    ∙ written-succeeded c.operation c.device e

resolves_react :
    (c : Config) (e : ErrorCode) (results : List Address)
    → IsSound c
    → c.pending ≡ async_resolve
    → succeeded (react c async_resolve (resolves e results)) ≡ false
unfolding step
resolves_react c e results sound p =
    ap (λ a. succeeded (react c a (resolves e results))) (sym p)
    ∙ resolves-succeeded c e results sound p

react-succeeded :
    (c : Config) (a : Action) (e : Event)
    → Fits c.operation a
    → c.pending ≡ a
    → IsSound c
    → succeeded (react c a e) ≡ true
    → (succeeded c ≡ true) ⊎ (granted e ≡ true)
unfolding react
react-succeeded c a expires f p sound s = inl (expires-succeeded c a s)
react-succeeded c a timer_runs f p sound s = inl (runs-succeeded c a s)
react-succeeded c terminated e f p sound s = absurd f
react-succeeded c undefined e f p sound s = absurd f
react-succeeded c async_resolve (resolves e results) f p sound s =
    let no = resolves_react c e results sound p in inl (cc)
react-succeeded c (async_write bytes) (writes e) (q, _, _) p sound s =
    let no = writes-succeeded c bytes e q in inl (cc)
react-succeeded c (async_read n) (reads e reply) (q, _, _) p sound s =
    elim (Bool-cases (length reply == n)) [
      | inl same ↦ inr (
          received-succeeded c.operation (cancel c.device) e reply
            (sym (ap succeeded (react_reads c n e reply q same)) ∙ s))
      | inr other ↦ inl (sym (ap succeeded (react_ignored c n e reply other)) ∙ s)
    ]
react-succeeded c async_resolve e f p sound s = inl s
react-succeeded c _ e f p sound s = inl s

-- An event after which the handshake has succeeded with the socket open: it had before, or the event
-- is the reply that grants it.
pub step-succeeded :
    (c : Config) (e : Event)
    → IsSound c
    → succeeded (step c e) ≡ true
    → (succeeded c ≡ true) ⊎ (granted e ≡ true)
unfolding step
step-succeeded c e sound s = react-succeeded c c.pending e sound refl sound s

pub begun-succeeded :
    (port : ℕ) (request reply : Bytes) (d : Device) → succeeded (begun port request reply d) ≡ false
unfolding begun on_start initiate succeeded_with
begun-succeeded port request reply d = refl
