-- ===== src/Socks4/Verdict.antt =====
-- SOCKS4.hpp: with which code the handshake completes, and what becomes of the socket.
use moose_tools.Prelude.{
  ℕ, ◌≡◌, refl, ap, true, false, not, some, [], ◌∷◌, Bytes, ◌==◌, if◌then◌else◌, length, arith, ◌∙◌,
}
use moose_tools.Asio.{
  expired_timer, run_timer, run_timer-cancelled, ErrorCode, is_aborted, is_error, Timer, Device,
  cancelled_timer, cancel, is_expired,
}
use moose_tools.Socks4.{
  State, Handshake, Action, async_resolve, async_write, async_read, complete, on_timer, received,
  replied, byte_at, refusal, on_transfer, transferred, written,
}
use moose_tools.Socks4.Run.{Config, writes, reads, expires, timer_runs, settle, react, step, run}
use moose_tools.Socks4.Progress.{react_read}

-- The completion that a whole reply asks for: the version and the status byte of an open socket.
unfoldable pub verdict : ℕ → ℕ → ErrorCode
verdict version status =
    if not (version == 0)
    then ErrorCode.protocol_not_supported
    else if status == 0x5b
    then ErrorCode.interrupted
    else if status == 0x5c
    then ErrorCode.operation_not_permitted
    else if status == 0x5d
    then ErrorCode.operation_not_permitted
    else ErrorCode.success

-- The reading stage of a handshake: its state, and what it waits for.
pub record IsReading (c : Config) : Type 0 where
  pub state : c.operation.state ≡ State.handle_read_response
  pub pending : c.pending ≡ async_read 8

pub record IsWriting (c : Config) (request : Bytes) : Type 0 where
  pub state : c.operation.state ≡ State.handle_request_write
  pub pending : c.pending ≡ async_write request

step_read :
    (c : Config) (e : ErrorCode) (reply : Bytes)
    → IsReading c
    → length reply ≡ 8
    → step c (reads e reply)
      ≡ settle (received (record (c.operation) { reply_buffer = some reply }) (cancel c.device) e)
unfolding step
step_read c e reply r l =
    ap
      (λ a.
        react (record { operation = c.operation; device = c.device; pending = a }) a
          (reads e reply))
      r.pending
    ∙ react_read c.operation c.device 8 e reply r.state l

-- Every reply of 8 bytes: on a socket that the timeout has closed the handshake is timed out;
-- else it completes by the version and status bytes, and the socket stays open exactly if the
-- version is wrong or the request was granted. The timer is cancelled in each case.
pub step-reply :
    (c : Config) (version status : ℕ) (rest : Bytes)
    → IsReading c
    → length rest ≡ 6
    → let c' = step c (reads ErrorCode.success (version ∷ status ∷ rest)) in
      (c'.pending
        ≡ complete (if c.device.is_open then verdict version status else ErrorCode.timed_out))
      × (c'.device.is_open ≡ (
          if version == 0
          then (if status == 0x5a then c.device.is_open else false)
          else c.device.is_open))
      × (c'.device.timer ≡ cancelled_timer c.device.timer)
unfolding received replied byte_at refusal verdict
step-reply c version status rest r l =
    rw (step_read c ErrorCode.success (version ∷ status ∷ rest) r (omega arith)) (ground arith)

pub step_write :
    (c : Config) (e : ErrorCode) (request : Bytes)
    → IsWriting c request
    → step c (writes e) ≡ settle (written c.operation c.device e)
unfolding step react on_transfer transferred
step_write c e request w =
    ap
      (λ a. react (record { operation = c.operation; device = c.device; pending = a }) a (writes e))
      w.pending
    ∙ ap (λ s. settle (transferred c.operation c.device e s)) w.state

react_expires :
    (h : Handshake) (d : Device) (a : Action)
    → react (record { operation = h; device = d; pending = a }) a expires
      ≡ record { operation = h; device = record d { timer = expired_timer d.timer }; pending = a }
unfolding react
react_expires h d async_resolve = refl
react_expires h d _ = refl

react_timer_runs :
    (h : Handshake) (d : Device) (a : Action)
    → react (record { operation = h; device = d; pending = a }) a timer_runs
      ≡ record { operation = h; device = run_timer on_timer d d.timer; pending = a }
unfolding react
react_timer_runs h d async_resolve = refl
react_timer_runs h d _ = refl

step_expires :
    (c : Config)
    → step c expires
      ≡ record c { device = record (c.device) { timer = expired_timer c.device.timer } }
unfolding step
step_expires c = react_expires c.operation c.device c.pending

step_timer_runs :
    (c : Config)
    → step c timer_runs ≡ record c { device = run_timer on_timer c.device c.device.timer }
unfolding step
step_timer_runs c = react_timer_runs c.operation c.device c.pending

written_error :
    (h : Handshake) (d : Device) (e : ErrorCode)
    → is_error e ≡ true
    → written h d e ≡ (h, d, complete e)
unfolding written
written_error h d e bad = rw (bad, written)

ran :
    (c : Config) (t : Timer)
    → c.device.timer ≡ t
    → (step c timer_runs).device ≡ run_timer on_timer c.device t
ran c t e = ap (λ (b : Config). b.device) (step_timer_runs c) ∙ ap (run_timer on_timer c.device) e

-- The timer runs out, and then its handler runs: the socket is closed.
run_out :
    (c : Config)
    → c.device.timer ≡ Timer.waiting
    → (step (step c expires) timer_runs).device.is_open ≡ false
unfolding on_timer
run_out c t = rw (step_timer_runs, step_expires, t) refl

-- An error of the write, with the timer still waiting, completes the handshake with that error, the
-- one of an aborted operation too. The timer is not cancelled: when its time is over it closes the
-- socket, which belongs to the caller again.
run-failed_write :
    (c : Config) (e : ErrorCode) (request : Bytes)
    → IsWriting c request
    → is_error e ≡ true
    → c.device.timer ≡ Timer.waiting
    → ((step c (writes e)).pending ≡ complete e)
      × ((step c (writes e)).device ≡ c.device)
      × ((run c (writes e ∷ expires ∷ timer_runs ∷ [])).device.is_open ≡ false)
unfolding run
run-failed_write c e request w bad t =
    let failed : step c (writes e) ≡ record c { pending = complete e } =
      step_write c e request w ∙ ap settle (written_error c.operation c.device e bad) in
    rw failed (refl, refl, run_out (record c { pending = complete e }) t)

-- An aborted read, as the timeout causes it, completes the handshake with `timed_out`; any other
-- error of the read completes it with that error. The timer is cancelled.
pub step-failed_read :
    (c : Config) (e : ErrorCode) (reply : Bytes)
    → IsReading c
    → length reply ≡ 8
    → is_error e ≡ true
    → let c' = step c (reads e reply) in
      (c'.pending ≡ complete (if is_aborted e then ErrorCode.timed_out else e))
      × (c'.device.is_open ≡ c.device.is_open)
      × (c'.device.timer ≡ cancelled_timer c.device.timer)
unfolding received
step-failed_read c e reply r l bad = rw (step_read c e reply r l, bad, received) (refl, refl, refl)

-- A granted request on an open socket: the handshake succeeds, and after the timer's handler has had
-- its turn the socket is open exactly if the timer had not run out when the reply was handled.
run-granted :
    (c : Config) (rest : Bytes)
    → IsReading c
    → c.device.is_open ≡ true
    → length rest ≡ 6
    → let granted = reads ErrorCode.success (0 ∷ 0x5a ∷ rest) in
      ((step c granted).pending ≡ complete ErrorCode.success)
      × ((run c (granted ∷ timer_runs ∷ [])).device.is_open ≡ not (is_expired c.device.timer))
unfolding run verdict on_timer
run-granted c rest r o l =
    let c' = step c (reads ErrorCode.success (0 ∷ 0x5a ∷ rest)) in
    let (p, q, t) = step-reply c 0 0x5a rest r l in
    (
      p ∙ ground arith,
      ap (λ (b : Device). b.is_open) (ran c' (cancelled_timer c.device.timer) t)
          ∙ run_timer-cancelled on_timer c'.device c.device.timer (λ _. refl) (λ _. refl) (q ∙ o),
    )
