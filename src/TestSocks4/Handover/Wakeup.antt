-- ===== src/TestSocks4/Handover/Wakeup.antt =====
-- test_socks4.cpp: no wakeup is lost, and the main thread goes on with the handler's code.
use moose_tools.Prelude.{
  ℕ, suc, ◌+◌, ◌*◌, ◌≤◌, ◌≡◌, ◌≢◌, Bool, true, false, none, arith, Option-cases, inl, inr, ◌⊎◌,
}
use moose_tools.Asio.{ErrorCode}
use moose_tools.TestSocks4.Handover.{
  Owner, MainPoint, HandlerPoint, Handover, started, main_step, handler_step, Step, main, io, wakes,
  counted, Run, here, next,
}

-- The handler holds the lock.
abbrev holds : HandlerPoint → Bool
holds HandlerPoint.setting = true
holds HandlerPoint.notifying = true
holds HandlerPoint.unlocking = true
holds _ = false

abbrev has_set : HandlerPoint → Bool
has_set HandlerPoint.notifying = true
has_set HandlerPoint.unlocking = true
has_set HandlerPoint.returned = true
has_set _ = false

abbrev has_notified : HandlerPoint → Bool
has_notified HandlerPoint.unlocking = true
has_notified HandlerPoint.returned = true
has_notified _ = false

abbrev has_assigned : HandlerPoint → Bool
has_assigned HandlerPoint.assigning = false
has_assigned _ = true

abbrev owner_at : MainPoint → HandlerPoint → Owner
owner_at MainPoint.testing _ = Owner.main_thread
owner_at _ HandlerPoint.setting = Owner.io_thread
owner_at _ HandlerPoint.notifying = Owner.io_thread
owner_at _ HandlerPoint.unlocking = Owner.io_thread
owner_at _ _ = Owner.nobody

record IsValid (code : ErrorCode) (s : Handover) : Type 0 where
  owner : s.owner ≡ owner_at s.main s.handler
  exclusive : holds s.handler ≡ true → s.main ≢ MainPoint.testing
  ready : s.connect_ready ≡ has_set s.handler
  error : has_assigned s.handler ≡ true → s.error ≡ code
  awaited : s.main ≡ MainPoint.waiting → has_notified s.handler ≡ false
  gone : s.main ≡ MainPoint.gone_on → has_set s.handler ≡ true

started-IsValid : (code error : ErrorCode) → IsValid code (started error)
unfolding started
started-IsValid code error = ground arith

Step-IsValid :
    (code : ErrorCode) (s u : Handover) (b : Bool)
    → IsValid code s
    → Step code s u b
    → IsValid code u
unfolding main_step handler_step
Step-IsValid code s u b v (main e) = ground arith
Step-IsValid code s u b v (io e) = ground arith
Step-IsValid code s u b v (wakes w e) = ground arith

Run-IsValid :
    {code : ErrorCode} {s u : Handover} {n k : ℕ}
    → IsValid code s
    → Run code s n k u
    → IsValid code u
Run-IsValid v here = v
Run-IsValid {code} v (next {t} {u} {b} r st) = Step-IsValid code t u b (Run-IsValid v r) st

-- How many steps are at most to come, without spurious wakeups.
abbrev main_rank : MainPoint → ℕ
main_rank MainPoint.locking = 3
main_rank MainPoint.woken = 3
main_rank MainPoint.testing = 2
main_rank MainPoint.waiting = 1
main_rank MainPoint.gone_on = 0

abbrev handler_rank : HandlerPoint → ℕ
handler_rank HandlerPoint.assigning = 7
handler_rank HandlerPoint.locking = 6
handler_rank HandlerPoint.setting = 5
handler_rank HandlerPoint.notifying = 4
handler_rank HandlerPoint.unlocking = 1
handler_rank HandlerPoint.returned = 0

abbrev rank : Handover → ℕ
rank s = main_rank s.main + handler_rank s.handler

-- A spurious wakeup gives two steps back.
Step-rank :
    (code : ErrorCode) (s u : Handover) (b : Bool)
    → Step code s u b
    → suc (rank u) ≤ rank s + 3 * counted b 0
unfolding main_step handler_step
Step-rank code s u b (main e) = ground arith
Step-rank code s u b (io e) = ground arith
Step-rank code s u b (wakes w e) = ground arith

counted_lem : (b : Bool) (k : ℕ) → counted b k ≡ k + counted b 0
counted_lem true k = omega arith
counted_lem false k = omega arith

Run-rank :
    {code : ErrorCode} {s u : Handover} {n k : ℕ} → Run code s n k u → n + rank u ≤ rank s + 3 * k
Run-rank here = omega arith
Run-rank {code} (next {k} {t} {u} {b} r st) =
    omega (arith, Run-rank r, Step-rank code t u b st, counted_lem b k)

-- Where neither thread can go on, both have come to their end.
stuck_lem :
    (code : ErrorCode) (s : Handover)
    → IsValid code s
    → main_step s ≡ none
    → handler_step code s ≡ none
    → (s.main ≡ MainPoint.gone_on) × (s.handler ≡ HandlerPoint.returned)
unfolding main_step handler_step
stuck_lem code s v m h = ground arith

-- In any interleaving of the main thread with the completion handler, spurious wakeups among the
-- steps: when the main thread goes on, `error` is the code that the handler was called with, and the
-- flag is set.
pub Run-gone_on :
    (code error : ErrorCode) (n k : ℕ) (s : Handover)
    → Run code (started error) n k s
    → s.main ≡ MainPoint.gone_on
    → (s.error ≡ code) × (s.connect_ready ≡ true)
Run-gone_on code error n k s r g =
    let v = Run-IsValid (started-IsValid code error) r in ground (arith, v)

progress :
    (code : ErrorCode) (s : Handover)
    → IsValid code s
    → (s.main ≡ MainPoint.gone_on) × (s.handler ≡ HandlerPoint.returned)
      ⊎ ((u : Handover) × Step code s u false)
progress code s v = elim (Option-cases (main_step s)) [
  | inl m ↦ elim (Option-cases (handler_step code s)) [
    | inl h ↦ inl (stuck_lem code s v m h)
    | inr (u, e) ↦ inr (u, io e)
  ]
  | inr (u, e) ↦ inr (u, main e)
]

-- No wakeup is lost: such a run with k spurious wakeups has at most 10 + 3 k steps, and it can be
-- continued by a step of a thread, or the main thread has gone on and the handler has returned.
pub Run-ends :
    (code error : ErrorCode) (n k : ℕ) (s : Handover)
    → Run code (started error) n k s
    → (n ≤ 10 + 3 * k)
      × ((s.main ≡ MainPoint.gone_on) × (s.handler ≡ HandlerPoint.returned)
          ⊎ ((u : Handover) × Step code s u false))
unfolding started
Run-ends code error n k s r =
    (omega (arith, Run-rank r), progress code s (Run-IsValid (started-IsValid code error) r))
