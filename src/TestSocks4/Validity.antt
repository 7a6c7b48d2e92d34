-- ===== src/TestSocks4/Validity.antt =====
-- test_socks4.cpp: what holds of the program while it runs.
use moose_tools.Prelude.{
  ℕ, ◌≡◌, refl, false, not, ◌&&◌, Bytes, length, Bool-cases, inl, inr, sym, subst,
}
use moose_tools.Asio.{ErrorCode, is_error, Timer}
use moose_tools.TimedConnect
use moose_tools.TimedConnect.Settled.{IsSettled, step-IsSettled, begun-IsSettled}
use moose_tools.TimedConnect.Stages.{step-complete}
use moose_tools.Socks4
use moose_tools.Socks4.Safety
use moose_tools.Socks4.Safety.{step-IsSound, begun-IsSound}
use moose_tools.TestSocks4.{
  Stage, connecting, shaking, exited, Program, Event, connect_event, handshake_event, goes_on,
  connect_config, handshake_config, with_connect, with_handshake, connected, shaken, step_at, step,
  begun,
}

-- While it connects the operation is settled; while the handshake is under way that is sound, and the
-- connection has completed.
abbrev pub Fits : Program → Stage → Type 0
Fits p connecting = IsSettled (connect_config p)
Fits p (shaking h a t) =
    Socks4.Safety.Fits h a × ((code : ErrorCode) × (p.connect_pending ≡ TimedConnect.complete code))
Fits p (exited status) = Unit

abbrev pub IsValid : Program → Type 0
IsValid p = Fits p p.stage

module _ (target_port : ℕ) (request reply : Bytes) (request_is : length request ≡ 14)
    (reply_is : length reply ≡ 8) where
  connected-IsValid :
      (p : Program) (a : TimedConnect.Action)
      → p.stage ≡ connecting
      → p.connect_pending ≡ a
      → IsSettled (connect_config p)
      → IsValid (connected target_port request reply p a)
  unfolding connected with_handshake
  connected-IsValid p (TimedConnect.complete error) q e f =
      elim (Bool-cases (p.is_open && not (is_error error))) [
        | inl good ↦ rw good (
          begun-IsSound target_port request reply
              (record { is_open = p.is_open; timer = Timer.unused }) request_is reply_is,
          (error, e),
        )
        | inr bad ↦ rw bad tt
      ]
  connected-IsValid p (TimedConnect.async_resolve _) q e f = subst (Fits p) (sym q) f
  connected-IsValid p _ q e f = subst (Fits p) (sym q) f

  shaken-IsValid :
      (p : Program) (a : Socks4.Action) → IsValid p → IsValid (shaken target_port request reply p a)
  unfolding shaken
  shaken-IsValid p (Socks4.complete error) v =
      elim (Bool-cases (p.is_open && not (is_error error))) [
        | inl good ↦ rw good tt
        | inr bad ↦ rw bad tt
      ]
  shaken-IsValid p Socks4.async_resolve v = v
  shaken-IsValid p _ v = v

  step_at-IsValid :
      (p : Program) (s : Stage) (e : Event)
      → p.stage ≡ s
      → Fits p s
      → IsValid (step_at target_port request reply p s e)
  unfolding step_at
  step_at-IsValid p (exited status) e q f = subst (Fits p) (sym q) f
  step_at-IsValid p connecting (connect_event e) q f =
      let c = TimedConnect.Run.step (connect_config p) e in
      subst (Fits (with_connect p c)) (sym q) (step-IsSettled (connect_config p) e f)
  step_at-IsValid p connecting (handshake_event e) q f = subst (Fits p) (sym q) f
  step_at-IsValid p connecting goes_on q f = connected-IsValid p p.connect_pending q refl f
  step_at-IsValid p (shaking h a t) (connect_event e) q (f, (code, done)) =
      let c = TimedConnect.Run.step (connect_config p) e in
      subst (Fits (with_connect p c)) (sym q)
        (f, (code, step-complete (connect_config p) e code done))
  step_at-IsValid p (shaking h a t) (handshake_event e) q (f, done) =
      (step-IsSound (handshake_config p h a t) e f, done)
  step_at-IsValid p (shaking h a t) goes_on q f = shaken-IsValid p a (subst (Fits p) (sym q) f)

  pub step-IsValid :
      (p : Program) (e : Event) → IsValid p → IsValid (step target_port request reply p e)
  unfolding step
  step-IsValid p e v = step_at-IsValid p p.stage e refl v

pub begun-IsValid :
    (lexical_cast : ℕ → Bytes) (socks_hostname : Bytes) (socks_port : ℕ)
    → IsValid (begun lexical_cast socks_hostname socks_port)
unfolding begun TimedConnect.initiate TimedConnect.Run.begun connect_config
begun-IsValid lexical_cast socks_hostname socks_port =
    begun-IsSettled (TimedConnect.initiate lexical_cast 0 socks_hostname socks_port)
      (record { is_open = false; timer = Timer.unused }) refl tt
