-- ===== src/UnitTests/Connections.antt =====
-- test/TestAsioHelpers.cpp: the cases on the timed connect operation. The main thread waits until the
-- operation has completed; what its environment does until then is a list of events.
use moose_tools.Prelude.{
  ℕ, ◌≡◌, refl, Bool, true, false, not, List, [], ◌∷◌, Bytes, codes, none, arith,
}
use moose_tools.Errors.{Kind, ok, thrown}
use moose_tools.Asio.{ErrorCode, is_error, is_aborted, Timer, Address}
use moose_tools.TimedConnect.{initiate, complete, resume, resolve, connect, finish, on_timer}
use moose_tools.TimedConnect.Run.{
  Config, Event, resolves, connects, opens, expires, timer_runs, begun, run, step, react,
}
use moose_tools.UnitTests.{Checks, passes, all_hold}

-- `async_timed_connect` on a new socket, and the events until the main thread goes on.
unfoldable connection : (ℕ → Bytes) → ℕ → ℕ → List Event → Config
connection lexical_cast protocol port events =
    run
      (begun (initiate lexical_cast protocol (codes "127.0.0.1") port)
        (record { is_open = false; timer = Timer.unused }))
      events

-- What a case checks once the operation has completed.
unfoldable judged : Config → (ErrorCode → Bool → List Bool) → Checks
judged c checks = elim c.pending [
  | complete error ↦ ok (checks error c.device.is_open)
  | _ ↦ thrown (record { kind = Kind.unit_test_error; message = "no completion"; argument = none })
]

is_timed_out : ErrorCode → Bool
is_timed_out ErrorCode.timed_out = true
is_timed_out _ = false

module _ (lexical_cast : ℕ → Bytes) where
  -- The case `TimedConnect`, without its check of the address.
  unfoldable timed_connect : List Event → Checks
  unfolding connection judged
  timed_connect events =
      judged (connection lexical_cast 4 2000 events)
        (λ error is_open. not (is_error error) ∷ is_open ∷ [])

  -- The case `TimeoutConnect`, without the time that it measures.
  unfoldable timeout_connect : List Event → Checks
  unfolding connection judged is_timed_out
  timeout_connect events =
      judged (connection lexical_cast 0 2001 events)
        (λ error is_open. is_timed_out error ∷ not is_open ∷ [])

  -- The case `WrongProtocol`.
  unfoldable wrong_protocol : List Event → Checks
  unfolding connection judged
  wrong_protocol events =
      judged (connection lexical_cast 6 2001 events)
        (λ error is_open. is_error error ∷ not is_open ∷ [])

  -- The case `TimedConnect` passes if the server's address is resolved and the connection made in time.
  timed_connect-passes :
      (results : List Address)
      → passes (
          timed_connect
            (resolves ErrorCode.success results ∷ opens ∷ connects ErrorCode.success ∷ []))
        ≡ true
  unfolding passes all_hold timed_connect begun run step react initiate resume resolve connect
      finish on_timer
  timed_connect-passes results = refl

  -- The case `TimeoutConnect` passes if the time is over first, whatever a connect call then yields that
  -- is not another error than the abortion.
  timeout_connect-passes :
      (results : List Address) (error : ErrorCode)
      → is_error error ≡ is_aborted error
      → passes (
          timeout_connect (
            resolves ErrorCode.success results
            ∷ opens
            ∷ expires
            ∷ timer_runs
            ∷ connects error
            ∷ []))
        ≡ true
  unfolding passes all_hold timeout_connect begun run step react initiate resume resolve connect
      finish on_timer
  timeout_connect-passes results ErrorCode.success e = refl
  timeout_connect-passes results ErrorCode.operation_aborted e = refl
  timeout_connect-passes results _ e = cc

  -- Where the address refuses the connection at once, the case fails.
  timeout_connect-refused :
      (results : List Address) (code : ℕ)
      → passes (
          timeout_connect
            (resolves ErrorCode.success results ∷ opens ∷ connects (ErrorCode.failure code) ∷ []))
        ≡ false
  unfolding passes all_hold timeout_connect begun run step react initiate resume resolve connect
      finish on_timer
  timeout_connect-refused results code = refl

  -- The case `WrongProtocol` passes if the address does not resolve.
  wrong_protocol-passes :
      (results : List Address) (error : ErrorCode)
      → is_error error ≡ true
      → passes (wrong_protocol (resolves error results ∷ [])) ≡ true
  unfolding passes all_hold wrong_protocol begun run step react initiate resume resolve connect
      finish on_timer
  wrong_protocol-passes results error e = ground (arith, e)
