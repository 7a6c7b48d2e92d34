-- ===== src/TestSocks4/Milestones.antt =====
-- test_socks4.cpp: what the events of the two operations bring the program to.
use moose_tools.Prelude.{ℕ, ◌≡◌, refl, Bool, true, false, not, Bytes, arith, ◌⊎◌, inl, sym, ap, ◌∙◌}
use moose_tools.Asio.{is_error, Timer}
use moose_tools.TimedConnect
use moose_tools.TimedConnect.Linked
use moose_tools.TimedConnect.Linked.{linked}
use moose_tools.Socks4
use moose_tools.Socks4.Granted
use moose_tools.Socks4.Granted.{granted, succeeded_with, succeeded_with_mono}
use moose_tools.TestSocks4.{
  Stage, connecting, shaking, exited, Program, Event, connect_event, handshake_event, goes_on,
  connect_config, handshake_config, with_connect, with_handshake, connected, shaken, step_at, step,
}
use moose_tools.TestSocks4.Validity.{Fits, IsValid}

-- The event is the answer that the connection is made, or the reply that grants the request.
abbrev pub is_linked : Event → Bool
is_linked (connect_event e) = linked e
is_linked _ = false

abbrev pub is_granted : Event → Bool
is_granted (handshake_event e) = granted e
is_granted _ = false

-- The connection has been made, as far as the program knows; likewise the handshake.
unfoldable pub has_linked : Program → Stage → Bool
has_linked p connecting = TimedConnect.Linked.succeeded p.connect_pending
has_linked p (shaking h a t) = true
has_linked p (exited status) = status

unfoldable pub has_granted : Program → Stage → Bool
has_granted p connecting = false
has_granted p (shaking h a t) = succeeded_with p.is_open a
has_granted p (exited status) = status

module _ (target_port : ℕ) (request reply : Bytes) where
  -- Starting the handshake.
  connected-linked :
      (p : Program) (a : TimedConnect.Action)
      → p.stage ≡ connecting
      → p.connect_pending ≡ a
      → let p' = connected target_port request reply p a in
        has_linked p' p'.stage ≡ true → has_linked p p.stage ≡ true
  unfolding connected with_handshake has_linked TimedConnect.Linked.succeeded
  connected-linked p (TimedConnect.complete error) q e s =
      let good : not (is_error error) ≡ true = ground arith in
      ap (has_linked p) q ∙ ap TimedConnect.Linked.succeeded e ∙ good
  connected-linked p (TimedConnect.async_resolve _) q e s = s
  connected-linked p _ q e s = s

  connected-granted :
      (p : Program) (a : TimedConnect.Action)
      → p.stage ≡ connecting
      → let p' = connected target_port request reply p a in
        has_granted p' p'.stage ≡ true → has_granted p p.stage ≡ true
  unfolding connected with_handshake has_granted
  connected-granted p (TimedConnect.complete error) q s =
      let no =
        Socks4.Granted.begun-succeeded target_port request reply
          (record { is_open = p.is_open; timer = Timer.unused }) in
      absurd (ground (arith, no))
  connected-granted p (TimedConnect.async_resolve _) q s = s
  connected-granted p _ q s = s

  shaken-granted :
      (p : Program) (h : Socks4.Handshake) (a : Socks4.Action) (t : Timer)
      → p.stage ≡ shaking h a t
      → let p' = shaken target_port request reply p a in
        has_granted p' p'.stage ≡ true → has_granted p p.stage ≡ true
  unfolding shaken has_granted succeeded_with
  shaken-granted p h (Socks4.complete error) t q s = ap (has_granted p) q ∙ ground arith
  shaken-granted p h Socks4.async_resolve t q s = s
  shaken-granted p h _ t q s = s

  step_at-linked :
      (p : Program) (st : Stage) (e : Event)
      → p.stage ≡ st
      → Fits p st
      → let p' = step_at target_port request reply p st e in
        has_linked p' p'.stage ≡ true → (has_linked p st ≡ true) ⊎ (is_linked e ≡ true)
  unfolding step_at has_linked
  step_at-linked p (exited status) e q f s = inl (sym (ap (has_linked p) q) ∙ s)
  step_at-linked p connecting (connect_event e) q f s =
      let c = TimedConnect.Run.step (connect_config p) e in
      TimedConnect.Linked.step-succeeded (connect_config p) e f
        (sym (ap (has_linked (with_connect p c)) q) ∙ s)
  step_at-linked p connecting (handshake_event e) q f s = inl (sym (ap (has_linked p) q) ∙ s)
  step_at-linked p connecting goes_on q f s =
      inl (sym (ap (has_linked p) q) ∙ connected-linked p p.connect_pending q refl s)
  step_at-linked p (shaking h a t) e q f s = inl refl

  step_at-granted :
      (p : Program) (st : Stage) (e : Event)
      → p.stage ≡ st
      → Fits p st
      → let p' = step_at target_port request reply p st e in
        has_granted p' p'.stage ≡ true → (has_granted p st ≡ true) ⊎ (is_granted e ≡ true)
  unfolding step_at has_granted
  step_at-granted p (exited status) e q f s = inl (sym (ap (has_granted p) q) ∙ s)
  step_at-granted p connecting (connect_event e) q f s =
      let c = TimedConnect.Run.step (connect_config p) e in
      inl (sym (ap (has_granted (with_connect p c)) q) ∙ s)
  step_at-granted p connecting (handshake_event e) q f s = inl (sym (ap (has_granted p) q) ∙ s)
  step_at-granted p connecting goes_on q f s =
      inl (sym (ap (has_granted p) q) ∙ connected-granted p p.connect_pending q s)
  step_at-granted p (shaking h a t) (connect_event e) q (f, (code, done)) s =
      let c = TimedConnect.Run.step (connect_config p) e in
      inl (
        succeeded_with_mono p.is_open c.device.is_open a
          (TimedConnect.Linked.step-is_open (connect_config p) e code done)
          (sym (ap (has_granted (with_connect p c)) q) ∙ s))
  step_at-granted p (shaking h a t) (handshake_event e) q (f, done) s =
      Socks4.Granted.step-succeeded (handshake_config p h a t) e f s
  step_at-granted p (shaking h a t) goes_on q f s =
      inl (sym (ap (has_granted p) q) ∙ shaken-granted p h a t q s)

  pub step-linked :
      (p : Program) (e : Event)
      → IsValid p
      → has_linked (step target_port request reply p e) (step target_port request reply p e).stage
        ≡ true
      → (has_linked p p.stage ≡ true) ⊎ (is_linked e ≡ true)
  unfolding step
  step-linked p e v s = step_at-linked p p.stage e refl v s

  pub step-granted :
      (p : Program) (e : Event)
      → IsValid p
      → has_granted (step target_port request reply p e) (step target_port request reply p e).stage
        ≡ true
      → (has_granted p p.stage ≡ true) ⊎ (is_granted e ≡ true)
  unfolding step
  step-granted p e v s = step_at-granted p p.stage e refl v s
