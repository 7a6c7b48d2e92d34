-- ===== src/TestSocks4/Success.antt =====
-- test_socks4.cpp: the program succeeds only if both operations have.
use moose_tools.Prelude.{
  ℕ, ◌≡◌, refl, Bool, true, false, List, [], ◌∷◌, Bytes, length, ◌⊎◌, inl, inr, ap, Any,
}
use moose_tools.Asio.{Timer}
use moose_tools.TimedConnect
use moose_tools.TimedConnect.Linked
use moose_tools.TimedConnect.Linked.{linked}
use moose_tools.TestSocks4.{exited, Program, Event, step, run, begun}
use moose_tools.TestSocks4.Validity.{IsValid, step-IsValid, begun-IsValid}
use moose_tools.TestSocks4.Milestones.{
  is_linked, is_granted, has_linked, has_granted, step-linked, step-granted,
}

module _ (lexical_cast : ℕ → Bytes) (socks_hostname : Bytes) (socks_port : ℕ) where
  begun-linked :
      let p = begun lexical_cast socks_hostname socks_port in has_linked p p.stage ≡ false
  unfolding begun has_linked TimedConnect.initiate
  begun-linked =
      TimedConnect.Linked.begun-succeeded
        (TimedConnect.initiate lexical_cast 0 socks_hostname socks_port)
        (record { is_open = false; timer = Timer.unused }) refl

  begun-granted :
      let p = begun lexical_cast socks_hostname socks_port in has_granted p p.stage ≡ false
  unfolding begun has_granted
  begun-granted = refl

module _ (target_port : ℕ) (request reply : Bytes) (request_is : length request ≡ 14)
    (reply_is : length reply ≡ 8) where
  -- What comes to hold in a run has come by an event.
  run_seen :
      (holds : Program → Bool) (causes : Event → Bool)
      → ((p : Program) (e : Event)
          → IsValid p
          → holds (step target_port request reply p e) ≡ true
          → (holds p ≡ true) ⊎ (causes e ≡ true))
      → (p : Program) (es : List Event) → IsValid p
      → holds (run target_port request reply p es) ≡ true
      → (holds p ≡ true) ⊎ Any (λ e. causes e ≡ true) es
  unfolding run
  run_seen holds causes one p [] v s = inl s
  run_seen holds causes one p (e ∷ es) v s =
      elim (run_seen holds causes one (step target_port request reply p e) es
        (step-IsValid target_port request reply request_is reply_is p e v) s) [
          | inl now ↦ elim (one p e v now) [ inl before ↦ inl before | inr here ↦ inr (inl here) ]
          | inr later ↦ inr (inr later)
        ]

  run_caused :
      (holds : Program → Bool) (causes : Event → Bool)
      → ((p : Program) (e : Event)
          → IsValid p
          → holds (step target_port request reply p e) ≡ true
          → (holds p ≡ true) ⊎ (causes e ≡ true))
      → (p : Program) (es : List Event) → IsValid p
      → holds p ≡ false
      → holds (run target_port request reply p es) ≡ true
      → Any (λ e. causes e ≡ true) es
  run_caused holds causes one p es v absent s = elim (run_seen holds causes one p es v s) [
    | inl before ↦ absurd (cc)
    | inr seen ↦ seen
  ]

  -- The program returns EXIT_SUCCESS only if the connection was made and the proxy has granted the
  -- request, by a reply with version 0 and status 0x5a, whatever else happens in whichever order: for
  -- request and reply buffers of 14 and 8 bytes.
  pub run-begun-succeeds :
      (lexical_cast : ℕ → Bytes) (socks_hostname : Bytes) (socks_port : ℕ) (es : List Event)
      → (run target_port request reply (begun lexical_cast socks_hostname socks_port) es).stage
        ≡ exited true
      → Any (λ e. is_linked e ≡ true) es × Any (λ e. is_granted e ≡ true) es
  unfolding has_linked has_granted
  run-begun-succeeds lexical_cast socks_hostname socks_port es q =
      let p = begun lexical_cast socks_hostname socks_port in
      let v = begun-IsValid lexical_cast socks_hostname socks_port in
      let p' = run target_port request reply p es in
      (
        run_caused (λ k. has_linked k k.stage) is_linked (step-linked target_port request reply) p
            es v (begun-linked lexical_cast socks_hostname socks_port) (ap (has_linked p') q),
        run_caused (λ k. has_granted k k.stage) is_granted (step-granted target_port request reply)
            p es v (begun-granted lexical_cast socks_hostname socks_port) (ap (has_granted p') q),
      )
