-- ===== src/TimedConnect/Quiet.antt =====
-- TimedConnect.hpp: an operation that has completed, and whose timer does not close the socket.
use moose_tools.Prelude.{◌≡◌, refl, subst, ap, sym, false, ◌∙◌}
use moose_tools.Asio.{ErrorCode, Timer, run_timer}
use moose_tools.Asio.Quiet.{IsHarmless, Leaves, expired-IsHarmless, ran-Leaves}
use moose_tools.TimedConnect.{complete, on_timer}
use moose_tools.TimedConnect.Run.{
  Config, Event, resolves, connects, opens, expires, timer_runs, react, step,
}

react-Leaves :
    (c : Config) (e : Event) (code : ErrorCode)
    → IsHarmless c.device.timer
    → Leaves c.device (react c (complete code) e).device
unfolding react on_timer
react-Leaves c expires code h = (refl, expired-IsHarmless c.device.timer h)
react-Leaves c timer_runs code h =
    ran-Leaves on_timer (λ _. refl) (λ _. refl) c.device c.device.timer refl h
react-Leaves c opens code h = (refl, h)
react-Leaves c (resolves _ _) code h = (refl, h)
react-Leaves c (connects _) code h = (refl, h)

pub step-Leaves :
    (c : Config) (e : Event) (code : ErrorCode)
    → c.pending ≡ complete code
    → IsHarmless c.device.timer
    → Leaves c.device (step c e).device
unfolding step
step-Leaves c e code p h =
    subst (λ a. Leaves c.device (react c a e).device) (sym p) (react-Leaves c e code h)

-- The handler of a timer that has run out closes the socket, after the completion too.
pub step-expired :
    (c : Config) (code : ErrorCode)
    → c.pending ≡ complete code
    → c.device.timer ≡ Timer.expired
    → (step c timer_runs).device.is_open ≡ false
unfolding step react on_timer
step-expired c code p e =
    ap (λ a. (react c a timer_runs).device.is_open) p
    ∙ ap (λ t. (run_timer on_timer c.device t).is_open) e
