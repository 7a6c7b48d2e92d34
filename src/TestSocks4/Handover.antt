-- ===== src/TestSocks4/Handover.antt =====
-- test_socks4.cpp: how the main thread waits for the completion of an operation. It waits on a
-- condition variable until the completion handler, which runs in the other thread, has set the flag.
pub mod Wakeup
mod Tests
use moose_tools.Prelude.{ℕ, suc, ◌≡◌, Bool, true, false, Option, none, some, if◌then◌else◌}
use moose_tools.Asio.{ErrorCode}

-- Who holds the mutex.
pub data Owner : Type 0 where
  nobody main_thread io_thread : Owner

-- Where the main thread is: it takes the lock, tests the flag, waits without the lock, has been woken
-- and takes the lock again, or has left the block.
pub data MainPoint : Type 0 where
  locking testing waiting woken gone_on : MainPoint

-- Where the handler is: it sets the error, takes the lock, sets the flag, notifies, releases the lock,
-- or has returned.
pub data HandlerPoint : Type 0 where
  assigning locking setting notifying unlocking returned : HandlerPoint

pub record Handover : Type 0 where
  pub owner : Owner
  pub main : MainPoint
  pub handler : HandlerPoint
  pub error : ErrorCode
  pub connect_ready : Bool

-- An operation has been started; `error` is what it was before.
pub started : ErrorCode → Handover
started error = record {
  owner = Owner.nobody;
  main = MainPoint.locking;
  handler = HandlerPoint.assigning;
  error = error;
  connect_ready = false;
}

main_at : Handover → MainPoint → Owner → Option Handover
main_at s MainPoint.locking Owner.nobody =
    some (record s { owner = Owner.main_thread; main = MainPoint.testing })
main_at s MainPoint.testing _ =
    if s.connect_ready
    then some (record s { owner = Owner.nobody; main = MainPoint.gone_on })
    else some (record s { owner = Owner.nobody; main = MainPoint.waiting })
main_at s MainPoint.woken Owner.nobody =
    some (record s { owner = Owner.main_thread; main = MainPoint.testing })
main_at s _ _ = none

-- A step of the main thread, from `unique_lock` to the end of the block; `none` if it cannot go on.
pub main_step : Handover → Option Handover
unfolding main_at
main_step s = main_at s s.main s.owner

abbrev notified : MainPoint → MainPoint
notified MainPoint.waiting = MainPoint.woken
notified p = p

handler_at : ErrorCode → Handover → HandlerPoint → Owner → Option Handover
handler_at code s HandlerPoint.assigning _ =
    some (record s { handler = HandlerPoint.locking; error = code })
handler_at code s HandlerPoint.locking Owner.nobody =
    some (record s { owner = Owner.io_thread; handler = HandlerPoint.setting })
handler_at code s HandlerPoint.setting _ =
    some (record s { handler = HandlerPoint.notifying; connect_ready = true })
handler_at code s HandlerPoint.notifying _ =
    some (record s { handler = HandlerPoint.unlocking; main = notified s.main })
handler_at code s HandlerPoint.unlocking _ =
    some (record s { owner = Owner.nobody; handler = HandlerPoint.returned })
handler_at code s _ _ = none

-- A step of the handler that is called with the code.
pub handler_step : ErrorCode → Handover → Option Handover
unfolding handler_at
handler_step code s = handler_at code s s.handler s.owner

-- One step of a run, and whether it is a spurious wakeup.
pub data Step (code : ErrorCode) (s u : Handover) : Bool → Type 0 where
  main : main_step s ≡ some u → Step code s u false
  io : handler_step code s ≡ some u → Step code s u false
  wakes : s.main ≡ MainPoint.waiting → u ≡ record s { main = MainPoint.woken } → Step code s u true

abbrev pub counted : Bool → ℕ → ℕ
counted true k = suc k
counted false k = k

-- A run of so many steps, of which so many are spurious wakeups.
pub data Run (code : ErrorCode) (s : Handover) : ℕ → ℕ → Handover → Type 0 where
  here : Run code s 0 0 s
  next :
      {n k : ℕ} {t u : Handover} {b : Bool}
      → Run code s n k t
      → Step code t u b
      → Run code s (suc n) (counted b k) u
