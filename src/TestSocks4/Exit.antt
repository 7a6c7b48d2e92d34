-- ===== src/TestSocks4/Exit.antt =====
-- test_socks4.cpp: the exit status.
use moose_tools.Prelude.{
  ℕ, ◌≡◌, refl, Bool, false, not, ◌&&◌, some, some_lem, List, [], ◌∷◌, ◌++◌, map, Bytes, Bool-cases,
  inl, inr, ap, ◌∙◌, All,
}
use moose_tools.Asio.{ErrorCode, is_error, Timer}
use moose_tools.TimedConnect
use moose_tools.Asio.Quiet.{IsHarmless}
use moose_tools.Socks4
use moose_tools.TestSocks4.{
  Stage, connecting, shaking, exited, Program, Event, connect_event, goes_on, connect_config,
  handshake_config, with_connect, with_handshake, connected, shaken, step_at, step, run, begun,
}
use moose_tools.TestSocks4.Isolation.{IsOperation, handshakes, view, run-view}

-- The connection as it runs alone.
abbrev pub connect_alone :
    (ℕ → Bytes) → Bytes → ℕ → List TimedConnect.Run.Event → TimedConnect.Run.Config
connect_alone lexical_cast socks_hostname socks_port cs =
    TimedConnect.Run.run
      (TimedConnect.Run.begun (TimedConnect.initiate lexical_cast 0 socks_hostname socks_port)
        (record { is_open = false; timer = Timer.unused }))
      cs

module _ (target_port : ℕ) (request reply : Bytes) where
  run-append :
      (p : Program) (es fs : List Event)
      → run target_port request reply p (es ++ fs)
        ≡ run target_port request reply (run target_port request reply p es) fs
  unfolding run
  run-append p [] fs = refl
  run-append p (e ∷ es) fs = run-append (step target_port request reply p e) es fs

  -- While the program connects, the operation goes as it would alone.
  run-connecting :
      (p : Program) (es : List TimedConnect.Run.Event)
      → p.stage ≡ connecting
      → run target_port request reply p (map connect_event es)
        ≡ with_connect p (TimedConnect.Run.run (connect_config p) es)
  unfolding run step step_at TimedConnect.Run.run
  run-connecting p [] q = refl
  run-connecting p (e ∷ es) q =
      let p' = with_connect p (TimedConnect.Run.step (connect_config p) e) in
      ap
        (λ st.
          run target_port request reply (step_at target_port request reply p st (connect_event e))
            (map connect_event es))
        q
      ∙ run-connecting p' es q

  run-exited :
      (p : Program) (es : List Event) (status : Bool)
      → p.stage ≡ exited status
      → (run target_port request reply p es).stage ≡ exited status
  unfolding run step step_at
  run-exited p [] status q = q
  run-exited p (e ∷ es) status q =
      ap (λ st. (run target_port request reply (step_at target_port request reply p st e) es).stage)
        q
      ∙ run-exited p es status q

  shaken-complete :
      (p : Program) (code : ErrorCode)
      → (shaken target_port request reply p (Socks4.complete code)).stage
        ≡ exited (p.is_open && not (is_error code))
  unfolding shaken
  shaken-complete p code = elim (Bool-cases (p.is_open && not (is_error code))) [
    | inl good ↦ rw good refl
    | inr bad ↦ rw bad refl
  ]

  -- The main thread goes on when the handshake c has completed.
  shaken-exited :
      (p : Program) (st : Stage) (c : Socks4.Run.Config) (code : ErrorCode)
      → view p st ≡ some c
      → c.pending ≡ Socks4.complete code
      → (step_at target_port request reply p st goes_on).stage
        ≡ exited (c.device.is_open && not (is_error code))
  unfolding view step_at handshake_config
  shaken-exited p connecting c code v e = absurd (cc)
  shaken-exited p (exited status) c code v e = absurd (cc)
  shaken-exited p (shaking h a t) c code v e =
      let same = some_lem (handshake_config p h a t) c v in
      let done : a ≡ Socks4.complete code = ap (λ k. k.pending) same ∙ e in
      ap (λ b. (shaken target_port request reply p b).stage) done
      ∙ shaken-complete p code
      ∙ ap (λ k. exited (k.device.is_open && not (is_error code))) same

  -- The handshake as it runs alone, on a socket that is open or closed.
  abbrev pub handshake_alone : Bool → List Event → Socks4.Run.Config
  handshake_alone is_open es =
      Socks4.Run.run
        (Socks4.Run.begun target_port request reply
          (record { is_open = is_open; timer = Timer.unused }))
        (handshakes es)

  connected-stage :
      (p : Program) (es : List Event) (connect_code code : ErrorCode)
      → p.connect_pending ≡ TimedConnect.complete connect_code
      → IsHarmless p.connect_timer
      → All IsOperation es
      → (handshake_alone p.is_open es).pending ≡ Socks4.complete code
      → (run target_port request reply
          (connected target_port request reply p (TimedConnect.complete connect_code))
          (es ++ goes_on ∷ [])).stage
        ≡ exited (
            (p.is_open && not (is_error connect_code))
            && ((handshake_alone p.is_open es).device.is_open && not (is_error code)))
  unfolding connected run step view with_handshake handshake_config Socks4.Run.run
  connected-stage p es connect_code code done m o e =
      let w = with_handshake p (
        Socks4.Run.begun target_port request reply
          (record { is_open = p.is_open; timer = Timer.unused })) in
      elim (Bool-cases (p.is_open && not (is_error connect_code))) [
        | inl good ↦ rw good (
            ap (λ k. k.stage) (run-append w es (goes_on ∷ []))
            ∙ shaken-exited (run target_port request reply w es)
                (run target_port request reply w es).stage (handshake_alone p.is_open es) code
                (run-view target_port request reply w (handshake_alone p.is_open []) es connect_code
                  refl done m o)
                e)
        | inr bad ↦
            rw bad (run-exited (record p { stage = exited false }) (es ++ goes_on ∷ []) false refl)
      ]

-- Both operations as they run alone decide the exit status: when the connection has completed and its
-- timer is harmless, and then the handshake has completed, the program returns EXIT_SUCCESS exactly if
-- each has left the socket open and has no error.
pub run-begun-exits :
    (target_port : ℕ) (request reply : Bytes) (lexical_cast : ℕ → Bytes) (socks_hostname : Bytes)
    (socks_port : ℕ) (cs : List TimedConnect.Run.Event) (es : List Event)
    (connect_code code : ErrorCode)
    → (connect_alone lexical_cast socks_hostname socks_port cs).pending
      ≡ TimedConnect.complete connect_code
    → IsHarmless (connect_alone lexical_cast socks_hostname socks_port cs).device.timer
    → All IsOperation es
    → (handshake_alone target_port request reply
        (connect_alone lexical_cast socks_hostname socks_port cs).device.is_open
        es).pending
      ≡ Socks4.complete code
    → let c = connect_alone lexical_cast socks_hostname socks_port cs in
      let s = handshake_alone target_port request reply c.device.is_open es in
      (run target_port request reply
        (begun lexical_cast socks_hostname socks_port)
        (map connect_event cs ++ goes_on ∷ (es ++ goes_on ∷ []))).stage
      ≡ exited (
          (c.device.is_open && not (is_error connect_code))
          && (s.device.is_open && not (is_error code)))
unfolding begun run step step_at with_connect connect_config
run-begun-exits target_port request reply lexical_cast socks_hostname socks_port cs es connect_code
      code done m o e =
    let p = begun lexical_cast socks_hostname socks_port in
    let c = connect_alone lexical_cast socks_hostname socks_port cs in
    let p' = with_connect p c in
    ap (λ k. k.stage)
      (run-append target_port request reply p (map connect_event cs)
        (goes_on ∷ (es ++ goes_on ∷ [])))
    ∙ ap (λ k. (run target_port request reply k (goes_on ∷ (es ++ goes_on ∷ []))).stage)
        (run-connecting target_port request reply p cs refl)
    ∙ ap
        (λ a.
          (run target_port request reply (connected target_port request reply p' a)
            (es ++ goes_on ∷ [])).stage)
        done
    ∙ connected-stage target_port request reply p' es connect_code code done m o e
