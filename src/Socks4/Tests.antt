-- ===== src/Socks4/Tests.antt =====
-- A handshake with concrete answers, and the theorems at concrete inputs.
use moose_tools.Prelude.{
  List, ◌≢◌, ◌↔◌, ◌⊎◌, Bool, ◌==◌, ◌≡◌, refl, true, false, some, [], ◌∷◌, Bytes, arith,
}
use moose_tools.Asio.{ErrorCode, Timer, Device, v4, v6}
use moose_tools.Socks4.{
  State, async_read, complete, on_start, initiate, on_resolve, on_transfer, on_timer,
}
use moose_tools.Socks4.Afterwards.{run-undisturbed}
use moose_tools.Socks4.Proxy.{answers, run-answers}
use moose_tools.Socks4.Request.{Request, connect, fill}
use moose_tools.Socks4.Run.{
  Config, Event, resolves, writes, reads, expires, timer_runs, step, run, begun, react,
}
use moose_tools.Socks4.Safety.{IsSound, run-begun-IsSound}
use moose_tools.Socks4.Stages.{step_timed, has_v4, read_code}
use moose_tools.Socks4.EndToEnd.{outcome, run-begun-outcome}
use moose_tools.Socks4.Verdict.{IsReading, verdict, step-reply}

abbrev request_memory : Bytes
request_memory = 9 ∷ 9 ∷ 9 ∷ 9 ∷ 9 ∷ 9 ∷ 9 ∷ 9 ∷ 9 ∷ 9 ∷ 9 ∷ 9 ∷ 9 ∷ 9 ∷ []

abbrev reply_memory : Bytes
reply_memory = 7 ∷ 7 ∷ 7 ∷ 7 ∷ 7 ∷ 7 ∷ 7 ∷ 7 ∷ []

abbrev rest : Bytes
rest = 0 ∷ 80 ∷ 10 ∷ 0 ∷ 0 ∷ 1 ∷ []

abbrev connected : Device
connected = record { is_open = true; timer = Timer.unused }

abbrev found : Event
found = resolves ErrorCode.success (v6 [] ∷ v4 10 0 0 1 ∷ [])

abbrev sent : Event
sent = writes ErrorCode.success

abbrev granted : Event
granted = reads ErrorCode.success (0 ∷ 0x5a ∷ rest)

abbrev waiting_reply : Config
waiting_reply = record {
  operation = record {
    state = State.handle_read_response;
    target_port = 80;
    request_buffer = some request_memory;
    reply_buffer = some reply_memory;
  };
  device = record { is_open = true; timer = Timer.waiting };
  pending = async_read 8;
}

is_reading : IsReading waiting_reply
is_reading = record { state = refl; pending = refl }

run-begun-IsSound_example : IsSound (
    run
      (begun 80 request_memory reply_memory connected)
      (sent ∷ found ∷ expires ∷ sent ∷ granted ∷ []))
run-begun-IsSound_example =
    run-begun-IsSound 80 request_memory reply_memory connected
      (sent ∷ found ∷ expires ∷ sent ∷ granted ∷ []) refl refl

-- The timer runs out while the request is written, and its handler runs while the reply is read.
run-begun-outcome_example :
    let c0 = run (begun 80 request_memory reply_memory connected) [] in
    let c1 = step_timed c0 found (expires ∷ []) in
    let c2 = step_timed c1 sent (timer_runs ∷ []) in
    (step c2 (reads ErrorCode.operation_aborted (0 ∷ 0x5a ∷ rest))).pending
    ≡ complete ErrorCode.timed_out
unfolding outcome read_code has_v4 run step react begun on_start initiate on_resolve on_transfer
    on_timer fill
run-begun-outcome_example =
    run-begun-outcome 80 request_memory reply_memory connected [] (expires ∷ []) (timer_runs ∷ [])
      ErrorCode.success ErrorCode.success ErrorCode.operation_aborted (v6 [] ∷ v4 10 0 0 1 ∷ []) 0
      0x5a rest refl refl refl tt (tt, tt) (tt, tt)

step-reply_example :
    let c' = step waiting_reply (reads ErrorCode.success (0 ∷ 0x5d ∷ rest)) in
    (c'.pending ≡ complete ErrorCode.operation_not_permitted)
    × (c'.device.is_open ≡ false)
    × (c'.device.timer ≡ Timer.cancelled)
unfolding verdict
step-reply_example = step-reply waiting_reply 0 0x5d rest is_reading refl

-- The write is aborted: the wait on the timer is left behind, and will close the socket.
run-undisturbed_example :
    let c =
      run
        (begun 80 request_memory reply_memory connected)
        (found ∷ writes ErrorCode.operation_aborted ∷ []) in
    (((fs : List Event) → (run c fs).device.is_open ≡ true) ↔ (⊥ ⊎ (◌≡◌ {A = Bool} true false)))
    × (c.operation.state ≢ State.handle_request_write → c.device.timer ≢ Timer.waiting)
unfolding run step react begun on_start initiate on_resolve on_transfer fill
run-undisturbed_example =
    run-undisturbed 80 request_memory reply_memory connected
      (found ∷ writes ErrorCode.operation_aborted ∷ []) ErrorCode.operation_aborted refl refl

-- A proxy that lets Moose connect to port 8080 only.
abbrev web_only : Request → Bool
web_only (connect port address user) = port == 8080

run-answers_example :
    let results = v6 [] ∷ v4 10 0 0 1 ∷ [] in
    let asked =
      step (begun 80 request_memory reply_memory connected) (resolves ErrorCode.success results) in
    let s = run asked (answers web_only asked.pending) in
    (s.pending ≡ complete ErrorCode.interrupted)
    × (s.device.is_open ≡ false)
    × (s.device.timer ≡ Timer.cancelled)
run-answers_example =
    run-answers web_only 80 request_memory reply_memory ([] ∷ []) 10 0 0 1 [] refl (omega arith)
