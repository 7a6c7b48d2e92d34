-- ===== src/Socks4/Afterwards.antt =====
-- SOCKS4.hpp: what becomes of the socket behind a handshake that has completed.
use moose_tools.Prelude.{
  ℕ, ◌≡◌, ◌≢◌, ◌↔◌, ◌⊎◌, refl, ap, sym, subst, false, Option, none, some, Bytes, List, [], ◌∷◌, inl,
  inr, arith, ◌==◌, length, Bool-cases,
}
use moose_tools.Asio.{ErrorCode, is_error, Timer, Device, Address, expired_timer, run_timer}
use moose_tools.Asio.Quiet.{
  IsIdle, expired-IsIdle, ran-IsIdle, IsHarmless, Leaves, expired-IsHarmless, ran-Leaves, Machine,
  left_alone,
}
use moose_tools.Socks4.{
  State, Handshake, Action, async_resolve, async_write, async_read, complete, terminated, undefined,
  Outcome, on_timer, on_resolve, on_transfer, resolved, requested, sent, first_v4, transferred,
  written, received, replied, initiate, on_start,
}
use moose_tools.Socks4.Request.{fill}
use moose_tools.Socks4.Run.{
  Config, Event, resolves, writes, reads, expires, timer_runs, react, step, run, begun,
}
use moose_tools.Socks4.Closed.{step-Opens}
use moose_tools.Socks4.Stages.{step-complete}

react-Leaves :
    (c : Config) (e : Event) (code : ErrorCode)
    → IsHarmless c.device.timer
    → Leaves c.device (react c (complete code) e).device
unfolding react on_timer
react-Leaves c expires code h = (refl, expired-IsHarmless c.device.timer h)
react-Leaves c timer_runs code h =
    ran-Leaves on_timer (λ _. refl) (λ _. refl) c.device c.device.timer refl h
react-Leaves c (resolves _ _) code h = (refl, h)
react-Leaves c (writes _) code h = (refl, h)
react-Leaves c (reads _ _) code h = (refl, h)

step-Leaves :
    (c : Config) (e : Event) (code : ErrorCode)
    → c.pending ≡ complete code
    → IsHarmless c.device.timer
    → Leaves c.device (step c e).device
unfolding step
step-Leaves c e code p h =
    subst (λ a. Leaves c.device (react c a e).device) (sym p) (react-Leaves c e code h)

machine : Machine on_timer
unfolding run step react
machine = record {
  Config = Config;
  Event = Event;
  step = step;
  run = run;
  run_nil = λ c. refl;
  run_cons = λ c e es. refl;
  device = λ c. c.device;
  IsDone = λ c. (code : ErrorCode) × (c.pending ≡ complete code);
  step-IsDone = λ c e p. (p.0, step-complete c e p.0 p.1);
  step-Leaves = λ c e p. step-Leaves c e p.0 p.1;
  step-Opens = λ c e p. step-Opens c e;
  lapses = expires;
  fires = timer_runs;
  timed = λ c p. ap (λ a. (run (record c { pending = a }) (expires ∷ timer_runs ∷ [])).device) p.1;
}

-- The timer while an action is under way: no wait before the request is written, and none behind a
-- completion by the resolution or by the reply.
abbrev Waits : Handshake → Timer → Action → Type 0
Waits h t async_resolve = (h.state ≡ State.handle_resolve) × (t ≡ Timer.unused)
Waits h t (async_write _) = h.state ≡ State.handle_request_write
Waits h t (async_read _) = h.state ≡ State.handle_read_response
Waits h t (complete _) =
    ((h.state ≡ State.handle_resolve) × (t ≡ Timer.unused))
    ⊎ (h.state ≡ State.handle_request_write)
    ⊎ ((h.state ≡ State.handle_read_response) × IsIdle t)
Waits h t _ = Unit

abbrev Waiting : Outcome → Type 0
Waiting (h, d, a) = Waits h d.timer a

sent-Waits : (h : Handshake) (d : Device) (filled : Option Bytes) → Waiting (sent h d filled)
unfolding sent
sent-Waits h d none = tt
sent-Waits h d (some buffer) = refl

requested-Waits :
    (h : Handshake) (d : Device) (buffer address : Option Bytes)
    → h.state ≡ State.handle_resolve
    → d.timer ≡ Timer.unused
    → Waiting (requested h d buffer address)
unfolding requested
requested-Waits h d none none s u = inl (s, u)
requested-Waits h d (some buffer) none s u = inl (s, u)
requested-Waits h d none (some address) s u = tt
requested-Waits h d (some buffer) (some address) s u =
    sent-Waits h d (fill buffer h.target_port address)

on_resolve-Waits :
    (h : Handshake) (d : Device) (e : ErrorCode) (results : List Address)
    → h.state ≡ State.handle_resolve
    → d.timer ≡ Timer.unused
    → Waiting (on_resolve h d e results)
unfolding on_resolve resolved requested sent
on_resolve-Waits h d e results s u = elim (Bool-cases (is_error e)) [
  | inl bad ↦ rw (bad, on_resolve) (inl (s, u))
  | inr good ↦
      rw (good, on_resolve, s, resolved)
        (requested-Waits h d h.request_buffer (first_v4 results) s u)
]

on_transfer-write :
    (h : Handshake) (d : Device) (e : ErrorCode)
    → h.state ≡ State.handle_request_write
    → Waiting (on_transfer h d e)
unfolding on_transfer transferred written
on_transfer-write h d e s = rw (s, transferred) (ground (arith, s))

on_transfer-read :
    (h : Handshake) (d : Device) (e : ErrorCode)
    → h.state ≡ State.handle_read_response
    → Waiting (on_transfer h d e)
unfolding on_transfer transferred received replied
on_transfer-read h d e s = rw (s, transferred) (ground (arith, s))

-- The timer's events on a handshake that has completed.
expired-Waits :
    (h : Handshake) (t : Timer) (code : ErrorCode)
    → Waits h t (complete code)
    → Waits h (expired_timer t) (complete code)
expired-Waits h t code (inl (s, u)) = inl (s, rw u refl)
expired-Waits h t code (inr (inl s)) = inr (inl s)
expired-Waits h t code (inr (inr (s, i))) = inr (inr (s, expired-IsIdle t))

ran-Waits :
    (h : Handshake) (d : Device) (code : ErrorCode)
    → Waits h d.timer (complete code)
    → Waits h (run_timer on_timer d d.timer).timer (complete code)
ran-Waits h d code (inl (s, u)) = inl (s, rw u refl)
ran-Waits h d code (inr (inl s)) = inr (inl s)
ran-Waits h d code (inr (inr (s, i))) = inr (inr (s, ran-IsIdle on_timer d d.timer refl i))

react-Waits :
    (h : Handshake) (d : Device) (a : Action) (e : Event)
    → Waits h d.timer a
    → let c = react (record { operation = h; device = d; pending = a }) a e in
      Waits c.operation c.device.timer c.pending
unfolding react
react-Waits h d async_resolve (resolves e results) (s, u) = on_resolve-Waits h d e results s u
react-Waits h d async_resolve expires (s, u) = (s, rw u refl)
react-Waits h d async_resolve timer_runs (s, u) = (s, rw u refl)
react-Waits h d (async_write b) (writes e) s = on_transfer-write h d e s
react-Waits h d (async_write b) expires s = s
react-Waits h d (async_write b) timer_runs s = s
react-Waits h d (async_read n) (reads e reply) s = elim (Bool-cases (length reply == n)) [
  | inl same ↦ rw (same, react) (on_transfer-read (record h { reply_buffer = some reply }) d e s)
  | inr other ↦ rw (other, react) s
]
react-Waits h d (async_read n) expires s = s
react-Waits h d (async_read n) timer_runs s = s
react-Waits h d (complete code) expires w = expired-Waits h d.timer code w
react-Waits h d (complete code) timer_runs w = ran-Waits h d code w
react-Waits h d terminated expires w = w
react-Waits h d terminated timer_runs w = w
react-Waits h d undefined expires w = w
react-Waits h d undefined timer_runs w = w
react-Waits h d a e w = w

run-Waits :
    (c : Config) (es : List Event)
    → Waits c.operation c.device.timer c.pending
    → let c' = run c es in Waits c'.operation c'.device.timer c'.pending
unfolding run step
run-Waits c [] w = w
run-Waits c (e ∷ es) w = run-Waits (step c e) es (react-Waits c.operation c.device c.pending e w)

only_written :
    (h : Handshake) (t : Timer) (code : ErrorCode)
    → Waits h t (complete code)
    → h.state ≢ State.handle_request_write
    → t ≢ Timer.waiting
only_written h t code (inl (s, u)) n w = cc
only_written h t code (inr (inl s)) n w = n s
only_written h t code (inr (inr (s, i))) n w = subst IsIdle w i

-- A handshake whose timer was not in use, and that has completed: whatever follows, the socket stays open
-- or closed as the handshake has left it, exactly if the timer is not waiting and has not run out with
-- its handler still to come, or the socket is closed already. A wait on the timer is left behind only
-- by a handshake that the answer to its write has completed.
pub run-undisturbed :
    (port : ℕ) (request reply : Bytes) (d : Device) (es : List Event) (code : ErrorCode)
    → d.timer ≡ Timer.unused
    → (run (begun port request reply d) es).pending ≡ complete code
    → let c = run (begun port request reply d) es in
      (((fs : List Event) → (run c fs).device.is_open ≡ c.device.is_open)
        ↔ (IsHarmless c.device.timer ⊎ (c.device.is_open ≡ false)))
      × (c.operation.state ≢ State.handle_request_write → c.device.timer ≢ Timer.waiting)
unfolding begun on_start initiate machine on_timer
run-undisturbed port request reply d es code u p =
    let c = run (begun port request reply d) es in
    (
      left_alone on_timer (λ _. refl) (λ _. refl) machine c (code, p),
      only_written c.operation c.device.timer code (
          subst (Waits c.operation c.device.timer) p
            (run-Waits (begun port request reply d) es (refl, u))),
    )
