-- ===== src/TimedConnect/Afterwards.antt =====
-- TimedConnect.hpp: what becomes of the socket behind an operation that has completed.
use moose_tools.Prelude.{◌≡◌, ◌≢◌, ◌↔◌, ◌⊎◌, refl, ap, subst, false, List, [], ◌∷◌, inl, inr}
use moose_tools.Asio.{ErrorCode, Timer, Device}
use moose_tools.Asio.Quiet.{IsIdle, IsHarmless, Machine, left_alone}
use moose_tools.TimedConnect.{Point, Connect, complete, on_timer}
use moose_tools.TimedConnect.Run.{Config, Event, expires, timer_runs, react, step, run, begun}
use moose_tools.TimedConnect.Quiet.{step-Leaves}
use moose_tools.TimedConnect.Linked.{step-is_open}
use moose_tools.TimedConnect.Stages.{step-complete}
use moose_tools.TimedConnect.Settled.{Fits, run-begun-IsSettled}

machine : Machine on_timer
unfolding run step react
machine = record {
  Config = Config;
  Event = Event;
  step = step;
  run = run;
  run_nil = λ c. refl;
  run_cons = λ c e es. refl;
  device = λ c. c.device;
  IsDone = λ c. (code : ErrorCode) × (c.pending ≡ complete code);
  step-IsDone = λ c e p. (p.0, step-complete c e p.0 p.1);
  step-Leaves = λ c e p. step-Leaves c e p.0 p.1;
  step-Opens = λ c e p. step-is_open c e p.0 p.1;
  lapses = expires;
  fires = timer_runs;
  timed = λ c p. ap (λ a. (run (record c { pending = a }) (expires ∷ timer_runs ∷ [])).device) p.1;
}

idle-IsHarmless : (t : Timer) → IsIdle t → t ≢ Timer.expired → IsHarmless t
idle-IsHarmless Timer.unused i n = tt
idle-IsHarmless Timer.waiting i n = i
idle-IsHarmless Timer.cancelled i n = tt
idle-IsHarmless Timer.expired i n = n refl
idle-IsHarmless Timer.finished i n = tt

-- An operation that starts with no wait on its timer, and has completed: whatever follows, the socket
-- stays open or closed as the operation has left it, exactly if the timer has not run out with its
-- handler still to come, or the socket is closed already.
pub run-left_alone :
    (o : Connect) (d : Device) (es : List Event) (code : ErrorCode)
    → o.point ≡ Point.begin
    → IsIdle d.timer
    → (run (begun o d) es).pending ≡ complete code
    → let c = run (begun o d) es in
      ((fs : List Event) → (run c fs).device.is_open ≡ c.device.is_open)
      ↔ ((c.device.timer ≢ Timer.expired) ⊎ (c.device.is_open ≡ false))
unfolding machine on_timer
run-left_alone o d es code begin idle p =
    let c = run (begun o d) es in
    let settled = subst (Fits c.operation c.device) p (run-begun-IsSettled o d es begin idle) in
    let (to, back) = left_alone on_timer (λ _. refl) (λ _. refl) machine c (code, p) in
    (
      λ same. elim (to same) [ inl h ↦ inl (λ e. subst IsHarmless e h) | inr closed ↦ inr closed ],
      λ left. back (elim left [
        | inl n ↦ inl (idle-IsHarmless c.device.timer settled.1 n)
        | inr closed ↦ inr closed
      ]),
    )
