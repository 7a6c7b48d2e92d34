-- ===== src/TestSocks4/StaleTimer.antt =====
-- test_socks4.cpp: the connection's timer that has run out but whose handler comes during the handshake.
use moose_tools.Prelude.{
  still_false, ℕ, ◌≡◌, ◌≢◌, refl, true, false, List, [], ◌∷◌, Bytes, sym, subst,
}
use moose_tools.Asio.{ErrorCode, Timer}
use moose_tools.TimedConnect
use moose_tools.TimedConnect.Run.{timer_runs}
use moose_tools.TimedConnect.Linked.{step-is_open}
use moose_tools.TimedConnect.Quiet.{step-expired}
use moose_tools.TimedConnect.Stages.{step-complete}
use moose_tools.Socks4
use moose_tools.Socks4.Closed.{step-Opens}
use moose_tools.TestSocks4.{
  Stage, connecting, shaking, exited, Program, Event, connect_event, handshake_event, goes_on,
  connect_config, handshake_config, with_connect, shaken, step_at, step, run,
}

-- The connection has completed.
abbrev IsConnected : Program → Type 0
IsConnected p = (code : ErrorCode) × (p.connect_pending ≡ TimedConnect.complete code)

-- The handshake is under way on a closed socket, or the program has failed.
abbrev Doomed : Program → Stage → Type 0
Doomed p connecting = ⊥
Doomed p (shaking h a t) = (p.is_open ≡ false) × IsConnected p
Doomed p (exited status) = status ≡ false

module _ (target_port : ℕ) (request reply : Bytes) where
  shaken-Doomed :
      (p : Program) (a : Socks4.Action)
      → p.is_open ≡ false
      → Doomed p p.stage
      → let p' = shaken target_port request reply p a in Doomed p' p'.stage
  unfolding shaken
  shaken-Doomed p (Socks4.complete error) o d = rw o refl
  shaken-Doomed p Socks4.async_resolve o d = d
  shaken-Doomed p _ o d = d

  step_at-Doomed :
      (p : Program) (st : Stage) (e : Event)
      → p.stage ≡ st
      → Doomed p st
      → let p' = step_at target_port request reply p st e in Doomed p' p'.stage
  unfolding step_at
  step_at-Doomed p connecting e q d = absurd d
  step_at-Doomed p (exited status) e q d = subst (Doomed p) (sym q) d
  step_at-Doomed p (shaking h a t) (connect_event e) q (o, (code, done)) =
      let c = TimedConnect.Run.step (connect_config p) e in
      subst (Doomed (with_connect p c)) (sym q) (
        still_false p.is_open c.device.is_open (step-is_open (connect_config p) e code done) o,
        (code, step-complete (connect_config p) e code done),
      )
  step_at-Doomed p (shaking h a t) (handshake_event e) q (o, done) =
      let c = Socks4.Run.step (handshake_config p h a t) e in
      (still_false p.is_open c.device.is_open (step-Opens (handshake_config p h a t) e) o, done)
  step_at-Doomed p (shaking h a t) goes_on q (o, done) =
      shaken-Doomed p a o (subst (Doomed p) (sym q) (o, done))

  run-Doomed :
      (p : Program) (es : List Event)
      → Doomed p p.stage
      → let p' = run target_port request reply p es in Doomed p' p'.stage
  unfolding run step
  run-Doomed p [] d = d
  run-Doomed p (e ∷ es) d =
      run-Doomed (step target_port request reply p e) es (step_at-Doomed p p.stage e refl d)

  Doomed-exited : (p : Program) (st : Stage) → Doomed p st → st ≢ exited true
  Doomed-exited p connecting d = absurd d
  Doomed-exited p (shaking h a t) d = λ e. cc
  Doomed-exited p (exited status) d = λ e. cc

  step-expired_Doomed :
      (p : Program) (h : Socks4.Handshake) (a : Socks4.Action) (t : Timer)
      → p.stage ≡ shaking h a t
      → IsConnected p
      → p.connect_timer ≡ Timer.expired
      → let p' = step target_port request reply p (connect_event timer_runs) in Doomed p' p'.stage
  unfolding step step_at
  step-expired_Doomed p h a t q (code, done) e =
      let c = TimedConnect.Run.step (connect_config p) timer_runs in
      subst
        (λ st.
          let p' = step_at target_port request reply p st (connect_event timer_runs) in
          Doomed p' p'.stage)
        (sym q)
        (subst (Doomed (with_connect p c)) (sym q) (
          step-expired (connect_config p) code done e,
          (code, step-complete (connect_config p) timer_runs code done),
        ))

  -- A handshake that is under way while the timer of the completed connection has run out: once that
  -- timer's handler runs, the program never returns EXIT_SUCCESS, whatever else happens and whatever
  -- the proxy answers.
  pub run-expired :
      (p : Program) (h : Socks4.Handshake) (a : Socks4.Action) (t : Timer) (es : List Event)
      → p.stage ≡ shaking h a t
      → IsConnected p
      → p.connect_timer ≡ Timer.expired
      → (run target_port request reply p (connect_event timer_runs ∷ es)).stage ≢ exited true
  unfolding run
  run-expired p h a t es q done e =
      let p' = step target_port request reply p (connect_event timer_runs) in
      Doomed-exited (run target_port request reply p' es)
        (run target_port request reply p' es).stage
        (run-Doomed p' es (step-expired_Doomed p h a t q done e))
