-- ===== src/TimedConnect/Linked.antt =====
-- TimedConnect.hpp: an operation that has succeeded has been told so by the connection.
use moose_tools.Prelude.{
  ◌≡◌, refl, Bool, true, false, not, List, [], arith, ◌⊎◌, inl, inr, sym, ap, ◌∙◌,
}
use moose_tools.Asio.{ErrorCode, is_error, Timer, Device, Address, cancel, run_timer}
use moose_tools.TimedConnect.{
  Point, Connect, Action, async_resolve, async_connect, complete, nothing, resume, resumed, resolve,
  connect, finish, on_timer,
}
use moose_tools.TimedConnect.Run.{
  Config, Event, resolves, connects, opens, expires, timer_runs, react, step, begun,
}
use moose_tools.TimedConnect.Settled.{Fits, IsSettled}

-- The operation has completed with success.
unfoldable pub succeeded : Action → Bool
succeeded (complete e) = not (is_error e)
succeeded _ = false

unfoldable pub linked : Event → Bool
linked (connects ErrorCode.success) = true
linked _ = false

connect-succeeded :
    (c : Connect) (d : Device) (e : ErrorCode) (results : List Address)
    → succeeded (connect c d e results).2 ≡ false
unfolding connect succeeded
connect-succeeded c d e results = ground arith

finish-succeeded :
    (c : Connect) (d : Device) (e : ErrorCode)
    → succeeded (finish c d e).2 ≡ true
    → linked (connects e) ≡ true
unfolding finish succeeded linked
finish-succeeded c d e s = ground arith

react-succeeded :
    (c : Config) (a : Action) (e : Event)
    → Fits c.operation c.device a
    → c.pending ≡ a
    → succeeded (react c a e).pending ≡ true
    → (succeeded c.pending ≡ true) ⊎ (linked e ≡ true)
unfolding react resume
react-succeeded c nothing e f p s = absurd f
react-succeeded c (async_resolve _) (resolves e results) (q, _) p s =
    let no : succeeded (resume c.operation c.device e results).2 ≡ false =
      ap (λ k. succeeded (resumed c.operation c.device e results k).2) q
      ∙ connect-succeeded c.operation c.device e results in
    inl (cc)
react-succeeded c (async_connect _) (connects e) q p s = inr (
    finish-succeeded c.operation (cancel c.device) e
      (sym (ap (λ k. succeeded (resumed c.operation c.device e [] k).2) q) ∙ s))
react-succeeded c (async_connect _) opens f p s = inl s
react-succeeded c (async_connect _) expires f p s = inl s
react-succeeded c (async_connect _) timer_runs f p s = inl s
react-succeeded c (async_resolve _) expires f p s = inl s
react-succeeded c (async_resolve _) timer_runs f p s = inl s
react-succeeded c (complete _) expires f p s = inl s
react-succeeded c (complete _) timer_runs f p s = inl s
react-succeeded c _ e f p s = inl s

-- An event after which the operation has succeeded: it had before, or the event is the connection.
pub step-succeeded :
    (c : Config) (e : Event)
    → IsSettled c
    → succeeded (step c e).pending ≡ true
    → (succeeded c.pending ≡ true) ⊎ (linked e ≡ true)
unfolding step
step-succeeded c e f s = react-succeeded c c.pending e f refl s

-- A timer that runs opens no socket.
ran-is_open : (d : Device) (t : Timer) → (run_timer on_timer d t).is_open ≡ true → d.is_open ≡ true
unfolding on_timer
ran-is_open d t o = ground arith

react-is_open :
    (c : Config) (e : Event) (code : ErrorCode)
    → (react c (complete code) e).device.is_open ≡ true
    → c.device.is_open ≡ true
unfolding react
react-is_open c expires code o = o
react-is_open c timer_runs code o = ran-is_open c.device c.device.timer o
react-is_open c opens code o = o
react-is_open c (resolves _ _) code o = o
react-is_open c (connects _) code o = o

-- After the completion nothing opens the socket.
pub step-is_open :
    (c : Config) (e : Event) (code : ErrorCode)
    → c.pending ≡ complete code
    → (step c e).device.is_open ≡ true
    → c.device.is_open ≡ true
unfolding step
step-is_open c e code p o =
    react-is_open c e code (sym (ap (λ a. (react c a e).device.is_open) p) ∙ o)

resolve-succeeded : (c : Connect) (d : Device) → succeeded (resolve c d).2 ≡ false
unfolding resolve succeeded
resolve-succeeded c d = ground arith

pub begun-succeeded :
    (c : Connect) (d : Device) → c.point ≡ Point.begin → succeeded (begun c d).pending ≡ false
unfolding begun resume
begun-succeeded c d p =
    ap (λ q. succeeded (resumed c d ErrorCode.success [] q).2) p ∙ resolve-succeeded c d
