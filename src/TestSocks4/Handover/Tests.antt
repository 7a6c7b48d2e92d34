-- ===== src/TestSocks4/Handover/Tests.antt =====
-- A wait with a spurious wakeup, before the handler is called.
use moose_tools.Prelude.{◌≤◌, ◌+◌, ◌*◌, ◌≡◌, ◌⊎◌, refl, true, false}
use moose_tools.Asio.{ErrorCode}
use moose_tools.TestSocks4.Handover.{
  Owner, MainPoint, HandlerPoint, Handover, started, Step, Run, main_step, handler_step, main, io,
  wakes, here, next,
}
use moose_tools.TestSocks4.Handover.Wakeup.{Run-gone_on, Run-ends}

abbrev last : Handover
last = record {
  owner = Owner.nobody;
  main = MainPoint.gone_on;
  handler = HandlerPoint.returned;
  error = ErrorCode.timed_out;
  connect_ready = true;
}

-- The main thread waits, wakes up and waits again; then the handler runs.
waited : Run ErrorCode.timed_out (started ErrorCode.success) 12 1 last
unfolding started main_step handler_step
waited =
    let locked = next here (main refl) in
    let waits = next locked (main refl) in
    let woken = next waits (wakes refl refl) in
    let again = next (next woken (main refl)) (main refl) in
    let set = next (next (next again (io refl)) (io refl)) (io refl) in
    next (next (next (next set (io refl)) (io refl)) (main refl)) (main refl)

Run-gone_on_example : (last.error ≡ ErrorCode.timed_out) × (last.connect_ready ≡ true)
Run-gone_on_example = Run-gone_on ErrorCode.timed_out ErrorCode.success 12 1 last waited refl

Run-ends_example :
    (12 ≤ 10 + 3 * 1)
    × ((last.main ≡ MainPoint.gone_on) × (last.handler ≡ HandlerPoint.returned)
        ⊎ ((u : Handover) × Step ErrorCode.timed_out last u false))
Run-ends_example = Run-ends ErrorCode.timed_out ErrorCode.success 12 1 last waited
