-- ===== src/TestSocks4/Isolation.antt =====
-- test_socks4.cpp: the connection's timer behind the connection, during the handshake.
use moose_tools.Prelude.{
  ℕ, ◌≡◌, refl, Bool, Option, none, some, some_lem, List, [], ◌∷◌, Bytes, ap, subst, ◌∙◌, All,
}
use moose_tools.Asio.{ErrorCode, Timer}
use moose_tools.TimedConnect
use moose_tools.Asio.Quiet.{IsHarmless}
use moose_tools.TimedConnect.Quiet.{step-Leaves}
use moose_tools.TimedConnect.Stages.{step-complete}
use moose_tools.TimedConnect.Run.{resolves, connects, opens, expires, timer_runs}
use moose_tools.Socks4
use moose_tools.TestSocks4.{
  Stage, connecting, shaking, exited, Program, Event, connect_event, handshake_event, goes_on,
  connect_config, handshake_config, with_connect, step_at, step, run,
}

-- The events of the operations, which the main thread waits for.
abbrev pub IsOperation : Event → Type 0
IsOperation goes_on = ⊥
IsOperation _ = Unit

abbrev pub handshakes : List Event → List Socks4.Run.Event
handshakes [] = []
handshakes (handshake_event e ∷ es) = e ∷ handshakes es
handshakes (_ ∷ es) = handshakes es

-- The handshake as it is under way, or nothing.
unfoldable pub view : Program → Stage → Option Socks4.Run.Config
view p (shaking h a t) = some (handshake_config p h a t)
view p _ = none

-- The handshake c, on a connection that has completed and whose timer is harmless.
record IsIsolated (p : Program) (c : Socks4.Run.Config) : Type 0 where
  view : view p p.stage ≡ some c
  code : ErrorCode
  completed : p.connect_pending ≡ TimedConnect.complete code
  timer : IsHarmless p.connect_timer

module _ (target_port : ℕ) (request reply : Bytes) where
  step_at-view :
      (p : Program) (h : Socks4.Handshake) (a : Socks4.Action) (t : Timer) (e : Event)
      (code : ErrorCode)
      → p.stage ≡ shaking h a t
      → IsOperation e
      → p.connect_pending ≡ TimedConnect.complete code
      → IsHarmless p.connect_timer
      → IsIsolated
          (step_at target_port request reply p (shaking h a t) e)
          (Socks4.Run.run (handshake_config p h a t) (handshakes (e ∷ [])))
  unfolding step_at view Socks4.Run.run
  step_at-view p h a t (connect_event e) code q o done m =
      let c = TimedConnect.Run.step (connect_config p) e in
      let (same, quiet) = step-Leaves (connect_config p) e code done m in
      record {
        view =
            ap (view (with_connect p c)) q
            ∙ ap (λ (b : Bool). view (record p { is_open = b }) (shaking h a t)) same;
        code = code;
        completed = step-complete (connect_config p) e code done;
        timer = quiet;
      }
  step_at-view p h a t (handshake_event e) code q o done m = record {
    view = refl;
    code = code;
    completed = done;
    timer = m;
  }
  step_at-view p h a t goes_on code q o done m = absurd o

  step_at-IsIsolated :
      (p : Program) (st : Stage) (c : Socks4.Run.Config) (e : Event)
      → p.stage ≡ st
      → view p st ≡ some c
      → IsOperation e
      → IsIsolated p c
      → IsIsolated
          (step_at target_port request reply p st e)
          (Socks4.Run.run c (handshakes (e ∷ [])))
  unfolding view
  step_at-IsIsolated p connecting c e q w o i = absurd (cc)
  step_at-IsIsolated p (exited status) c e q w o i = absurd (cc)
  step_at-IsIsolated p (shaking h a t) c e q w o i =
      subst
        (λ k.
          IsIsolated (step_at target_port request reply p (shaking h a t) e)
            (Socks4.Run.run k (handshakes (e ∷ []))))
        (some_lem (handshake_config p h a t) c w)
        (step_at-view p h a t e i.code q o i.completed i.timer)

  step-IsIsolated :
      (p : Program) (c : Socks4.Run.Config) (e : Event)
      → IsOperation e
      → IsIsolated p c
      → IsIsolated (step target_port request reply p e) (Socks4.Run.run c (handshakes (e ∷ [])))
  unfolding step
  step-IsIsolated p c e o i = step_at-IsIsolated p p.stage c e refl i.view o i

  run-handshakes :
      (c : Socks4.Run.Config) (e : Event) (es : List Event)
      → IsOperation e
      → Socks4.Run.run (Socks4.Run.run c (handshakes (e ∷ []))) (handshakes es)
        ≡ Socks4.Run.run c (handshakes (e ∷ es))
  unfolding Socks4.Run.run
  run-handshakes c (connect_event e) es o = refl
  run-handshakes c (handshake_event e) es o = refl
  run-handshakes c goes_on es o = absurd o

  run-IsIsolated :
      (p : Program) (c : Socks4.Run.Config) (es : List Event)
      → All IsOperation es
      → IsIsolated p c
      → IsIsolated (run target_port request reply p es) (Socks4.Run.run c (handshakes es))
  unfolding run Socks4.Run.run
  run-IsIsolated p c [] o i = i
  run-IsIsolated p c (e ∷ es) (o, os) i =
      subst (IsIsolated (run target_port request reply (step target_port request reply p e) es))
        (run-handshakes c e es o)
        (run-IsIsolated (step target_port request reply p e)
          (Socks4.Run.run c (handshakes (e ∷ []))) es os (step-IsIsolated p c e o i))

  -- A handshake c that is under way on a connection that has completed, and whose timer was cancelled
  -- or has done its work: whatever events of both operations follow, the handshake goes as it would
  -- alone, with its own events.
  pub run-view :
      (p : Program) (c : Socks4.Run.Config) (es : List Event) (code : ErrorCode)
      → view p p.stage ≡ some c
      → p.connect_pending ≡ TimedConnect.complete code
      → IsHarmless p.connect_timer
      → All IsOperation es
      → let p' = run target_port request reply p es in
        view p' p'.stage ≡ some (Socks4.Run.run c (handshakes es))
  run-view p c es code w done m o =
      (run-IsIsolated p c es o (record { view = w; code = code; completed = done; timer = m })).view
