-- ===== src/TimedConnect/Completion.antt =====
-- TimedConnect.hpp: with which code the operation completes, and what becomes of the timer.
use moose_tools.Prelude.{
  ◌≡◌, refl, ap, Bool, true, not, List, [], ◌∷◌, ◌==◌, if◌then◌else◌, arith, ◌∙◌,
}
use moose_tools.Asio.{
  run_timer, run_timer-cancelled, ErrorCode, is_error, is_aborted, Timer, Device, Address,
  cancelled_timer, cancel, is_expired, success_of,
}
use moose_tools.TimedConnect.{
  Point, Connect, Family, Action, async_resolve, async_connect, complete, resume, on_timer, resolve,
  finish, resumed,
}
use moose_tools.TimedConnect.Run.{Config, connects, timer_runs, settle, react, step, run, begun}

-- The first call completes with `no_protocol_option` for a protocol other than 0, 4 and 6, and
-- otherwise resolves in the family of the protocol.
begun-pending :
    (c : Connect) (d : Device)
    → c.point ≡ Point.begin
    → (begun c d).pending ≡ (
        if c.protocol == 0
        then async_resolve Family.any_family
        else if c.protocol == 4
        then async_resolve Family.v4_only
        else if c.protocol == 6
        then async_resolve Family.v6_only
        else complete ErrorCode.no_protocol_option)
unfolding begun resume
begun-pending c d p = rw (p, resumed) (unfold resolve in ground arith)

-- What a finished connection attempt completes with: the timeout shows as an aborted operation or as
-- a closed socket.
unfoldable pub verdict : Bool → ErrorCode → ErrorCode
verdict is_open e =
    if is_aborted e
    then ErrorCode.timed_out
    else if is_error e
    then e
    else if is_open
    then ErrorCode.success
    else ErrorCode.timed_out

pub record IsConnecting (c : Config) : Type 0 where
  pub point : c.operation.point ≡ Point.connecting
  pub results : List Address
  pub pending : c.pending ≡ async_connect results

finish_lem :
    (c : Connect) (d : Device) (e : ErrorCode)
    → ((finish c d e).2 ≡ complete (verdict d.is_open e)) × ((finish c d e).1 ≡ d)
unfolding finish verdict
finish_lem c d e = ground (arith, success_of e)

step_connects :
    (c : Config) (e : ErrorCode)
    → IsConnecting c
    → step c (connects e) ≡ settle (finish c.operation (cancel c.device) e)
unfolding step react resume
step_connects c e r =
    ap
      (λ a.
        react (record { operation = c.operation; device = c.device; pending = a }) a (connects e))
      r.pending
    ∙ ap (λ p. settle (resumed c.operation c.device e [] p)) r.point

-- While it connects, every answer completes the operation, with the code of `verdict`; the timer is
-- cancelled and the socket left as it is.
pub step-connects :
    (c : Config) (e : ErrorCode)
    → IsConnecting c
    → let c' = step c (connects e) in
      (c'.pending ≡ complete (verdict c.device.is_open e))
      × (c'.device.is_open ≡ c.device.is_open)
      × (c'.device.timer ≡ cancelled_timer c.device.timer)
step-connects c e r =
    let (p, d) = finish_lem c.operation (cancel c.device) e in
    rw (step_connects c e r) (p, ap (λ (b : Device). b.is_open) d, ap (λ (b : Device). b.timer) d)

react_timer_runs :
    (c : Connect) (d : Device) (a : Action)
    → react (record { operation = c; device = d; pending = a }) a timer_runs
      ≡ record { operation = c; device = run_timer on_timer d d.timer; pending = a }
unfolding react
react_timer_runs c d (async_connect _) = refl
react_timer_runs c d _ = refl

ran :
    (c : Config) (t : Timer)
    → c.device.timer ≡ t
    → (step c timer_runs).device ≡ run_timer on_timer c.device t
unfolding step
ran c t e =
    ap (λ (b : Config). b.device) (react_timer_runs c.operation c.device c.pending)
    ∙ ap (run_timer on_timer c.device) e

-- A connection that is made on an open socket: the operation succeeds, and after the timer's handler
-- has had its turn the socket is open exactly if the timer had not run out when the answer was
-- handled.
run-connected :
    (c : Config)
    → IsConnecting c
    → c.device.is_open ≡ true
    → ((step c (connects ErrorCode.success)).pending ≡ complete ErrorCode.success)
      × ((run c (connects ErrorCode.success ∷ timer_runs ∷ [])).device.is_open
          ≡ not (is_expired c.device.timer))
unfolding run verdict on_timer
run-connected c r o =
    let c' = step c (connects ErrorCode.success) in
    let (p, q, t) = step-connects c ErrorCode.success r in
    (
      p ∙ ground arith,
      ap (λ (b : Device). b.is_open) (ran c' (cancelled_timer c.device.timer) t)
          ∙ run_timer-cancelled on_timer c'.device c.device.timer (λ _. refl) (λ _. refl) (q ∙ o),
    )
