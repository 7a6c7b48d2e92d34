-- ===== src/TestSocks4/Proxied.antt =====
-- test_socks4.cpp: the program with a proxy that answers the request.
use moose_tools.Prelude.{
  ℕ, ◌≡◌, ◌<◌, ◌^◌, refl, ap, sym, subst, ◌∙◌, Bool, true, false, not, ◌&&◌, List, [], ◌∷◌, ◌++◌,
  map, Bytes, length, All, if◌then◌else◌,
}
use moose_tools.Asio.{ErrorCode, is_error, Timer, Address, v4, v6}
use moose_tools.Asio.Quiet.{IsHarmless}
use moose_tools.TimedConnect
use moose_tools.Socks4
use moose_tools.Socks4.Proxy.{answers, run-answers}
use moose_tools.Socks4.Request.{Request, connect, user_id}
use moose_tools.TestSocks4.{exited, connect_event, handshake_event, goes_on, run, begun}
use moose_tools.TestSocks4.Isolation.{IsOperation, handshakes}
use moose_tools.TestSocks4.Exit.{connect_alone, handshake_alone, run-begun-exits}

handshakes-map : (es : List Socks4.Run.Event) → handshakes (map handshake_event es) ≡ es
handshakes-map [] = refl
handshakes-map (e ∷ es) = rw (handshakes-map es) refl

map-IsOperation : (es : List Socks4.Run.Event) → All IsOperation (map handshake_event es)
map-IsOperation [] = tt
map-IsOperation (e ∷ es) = (tt, map-IsOperation es)

-- The connection to the proxy, and how it ends.
abbrev pub connections : ErrorCode → List Address → List TimedConnect.Run.Event
connections made proxies =
    TimedConnect.Run.resolves ErrorCode.success proxies
    ∷ TimedConnect.Run.opens
    ∷ TimedConnect.Run.connects made
    ∷ []

exit_lem :
    (is_open granted : Bool) (code : ErrorCode)
    → code ≡ (if granted then ErrorCode.success else ErrorCode.interrupted)
    → is_open ≡ granted
    → is_open && not (is_error code) ≡ granted
exit_lem is_open true code e o = rw (e, o) refl
exit_lem is_open false code e o = rw (e, o) refl

-- How the connection ends that runs alone.
record IsMade (made : ErrorCode) (c : TimedConnect.Run.Config) : Type 0 where
  code : ErrorCode
  completed : c.pending ≡ TimedConnect.complete code
  same_error : is_error code ≡ is_error made
  is_open : c.device.is_open ≡ true
  harmless : IsHarmless c.device.timer

connections-IsMade :
    (lexical_cast : ℕ → Bytes) (socks_hostname : Bytes) (socks_port : ℕ) (made : ErrorCode)
    (proxies : List Address)
    → IsMade made (connect_alone lexical_cast socks_hostname socks_port (connections made proxies))
unfolding TimedConnect.Run.run TimedConnect.Run.step TimedConnect.Run.react TimedConnect.Run.begun
    TimedConnect.initiate TimedConnect.resume TimedConnect.resumed TimedConnect.resolve
    TimedConnect.connect TimedConnect.finish
connections-IsMade lexical_cast h port ErrorCode.success proxies = record {
  code = ErrorCode.success;
  completed = refl;
  same_error = refl;
  is_open = refl;
  harmless = tt;
}
connections-IsMade lexical_cast h port ErrorCode.operation_aborted proxies = record {
  code = ErrorCode.timed_out;
  completed = refl;
  same_error = refl;
  is_open = refl;
  harmless = tt;
}
connections-IsMade lexical_cast h port made proxies = record {
  code = made;
  completed = refl;
  same_error = refl;
  is_open = refl;
  harmless = tt;
}

-- The program, where the connection to the proxy ends with a code, the target's name has an IPv4 address behind
-- any IPv6 ones, and the proxy reads the request which the handshake writes, and grants or refuses it
-- by any rule: for a request buffer of 14 bytes and a 16-bit port of the target, the program returns
-- EXIT_SUCCESS exactly if the code is no error and the rule grants the port, the first IPv4 address and the user Moose.
pub run-begun-proxied :
    (grants : Request → Bool) (target_port : ℕ) (request reply : Bytes) (lexical_cast : ℕ → Bytes)
    (socks_hostname : Bytes) (socks_port : ℕ) (made : ErrorCode) (proxies : List Address)
    (sixes : List Bytes) (a b c d : ℕ) (others : List Address)
    → length request ≡ 14
    → target_port < 2 ^ 16
    → let found = Socks4.Run.resolves ErrorCode.success (map v6 sixes ++ v4 a b c d ∷ others) in
      let asked =
        Socks4.Run.step
          (Socks4.Run.begun target_port request reply
            (record { is_open = true; timer = Timer.unused }))
          found in
      (run target_port request reply (begun lexical_cast socks_hostname socks_port) (
        map connect_event (connections made proxies)
        ++ goes_on
          ∷ (map handshake_event (found ∷ answers grants asked.pending) ++ goes_on ∷ []))).stage
      ≡ exited (not (is_error made) && grants (connect target_port (v4 a b c d) user_id))
unfolding Socks4.Run.run
run-begun-proxied grants target_port request reply lexical_cast socks_hostname socks_port made
      proxies sixes a b c d others l fits =
    let granted = grants (connect target_port (v4 a b c d) user_id) in
    let found = Socks4.Run.resolves ErrorCode.success (map v6 sixes ++ v4 a b c d ∷ others) in
    let asked =
      Socks4.Run.step
        (Socks4.Run.begun target_port request reply
          (record { is_open = true; timer = Timer.unused }))
        found in
    let es = found ∷ answers grants asked.pending in
    let (done, left, _) =
      run-answers grants target_port request reply sixes a b c d others l fits in
    let code = if granted then ErrorCode.success else ErrorCode.interrupted in
    let s = handshake_alone target_port request reply true (map handshake_event es) in
    let same : s ≡ Socks4.Run.run asked (answers grants asked.pending) =
      ap (Socks4.Run.run asked) (handshakes-map (answers grants asked.pending)) in
    let m = connections-IsMade lexical_cast socks_hostname socks_port made proxies in
    let alone : Bool → Socks4.Run.Config =
      λ o. handshake_alone target_port request reply o (map handshake_event es) in
    run-begun-exits target_port request reply lexical_cast socks_hostname socks_port
      (connections made proxies) (map handshake_event es) m.code code m.completed m.harmless
      (map-IsOperation es)
      (subst (λ (o : Bool). (alone o).pending ≡ Socks4.complete code) (sym m.is_open)
        (ap (λ k. k.pending) same ∙ done))
    ∙ ap
        (λ (o : Bool).
          exited
            ((o && not (is_error m.code)) && ((alone o).device.is_open && not (is_error code))))
        m.is_open
    ∙ ap (λ (e : Bool). exited (not e && (s.device.is_open && not (is_error code)))) m.same_error
    ∙ ap (λ (x : Bool). exited (not (is_error made) && x))
        (exit_lem s.device.is_open granted code refl (ap (λ k. k.device.is_open) same ∙ left))
