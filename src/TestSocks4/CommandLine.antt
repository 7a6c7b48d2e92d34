-- ===== src/TestSocks4/CommandLine.antt =====
-- test_socks4.cpp: the options, and with them the whole of `main`. What the library of program options
-- has read of the command line is a parameter; `none` is an exception that it has thrown.
use moose_tools.Prelude.{
  ℕ, ◌≡◌, Bool, true, false, not, ◌&&◌, ◌⊎◌, Option, none, some, List, [], ◌∷◌, ◌++◌, map, Bytes,
  if◌then◌else◌,
}
use moose_tools.Asio.{ErrorCode, is_error, Timer, Address, v4, v6}
use moose_tools.TimedConnect
use moose_tools.Socks4
use moose_tools.Socks4.Proxy.{answers}
use moose_tools.Socks4.Request.{Request, connect, user_id}
use moose_tools.TestSocks4.{
  Stage, exited, Program, Event, connect_event, handshake_event, goes_on, begun, run,
}
use moose_tools.TestSocks4.Proxied.{connections}

-- The options of `desc` as they are written on the command line, before the defaults. The name of the
-- target is left out: it only goes to the resolver, whose answer is an event.
pub record Written : Type 0 where
  pub help : Bool
  pub socks_host : Option Bytes
  pub socks_port : Option ℕ
  pub target_port : Option ℕ

-- `default_value`
defaulted : ℕ → Option ℕ → ℕ
defaulted n none = n
defaulted n (some m) = m

-- The value that is written, or else the default.
abbrev pub IsDefaulted : ℕ → Option ℕ → ℕ → Type 0
IsDefaulted n o m = (o ≡ some m) ⊎ ((o ≡ none) × (m ≡ n))

-- What the environment does may hang on the program that is started.
module _ (lexical_cast : ℕ → Bytes) (request reply : Bytes) (events : Program → List Event) where
  -- `as<std::string>()` of an option that is not there throws.
  with_host : Written → Option Bytes → Stage
  unfolding defaulted
  with_host w none = exited false
  with_host w (some socks_hostname) =
      let p = begun lexical_cast socks_hostname (defaulted 1080 w.socks_port) in
      (run (defaulted 80 w.target_port) request reply p (events p)).stage

  -- Where `main` stands after the events; an exception ends it with EXIT_FAILURE.
  pub run_main : Option Written → Stage
  unfolding with_host
  run_main none = exited false
  run_main (some w) = if w.help then exited true else with_host w w.socks_host

-- The answer to the target's name.
abbrev found : List Bytes → Address → List Address → Socks4.Run.Event
found sixes address others =
    Socks4.Run.resolves ErrorCode.success (map v6 sixes ++ address ∷ others)

-- The network connects to a name and the text of a port, or gives an error; the proxy answers what a
-- handshake for the target's port has written.
abbrev pub served :
    (Option Bytes → Option Bytes → ErrorCode)
    → (Request → Bool)
    → ℕ
    → Bytes
    → Bytes
    → List Address
    → Socks4.Run.Event
    → Program
    → List Event
served network grants target_port request reply proxies found p =
    let asked =
      Socks4.Run.step
        (Socks4.Run.begun target_port request reply
          (record { is_open = true; timer = Timer.unused }))
        found in
    map connect_event (connections (network p.connect.hostname p.connect.portstr) proxies)
    ++ goes_on ∷ (map handshake_event (found ∷ answers grants asked.pending) ++ goes_on ∷ [])

module _ (network : Option Bytes → Option Bytes → ErrorCode) (grants : Request → Bool) (w : Written)
    (socks_port target_port : ℕ) (request reply : Bytes) (lexical_cast : ℕ → Bytes)
    (proxies : List Address) (sixes : List Bytes) (a b c d : ℕ) (others : List Address) where
  -- The proxy's name is given, the network connects to it, and the rule grants the request.
  abbrev granted : Option Bytes → Bool
  granted none = false
  granted (some h) =
      not (is_error (network (some h) (some (lexical_cast socks_port))))
      && grants (connect target_port (v4 a b c d) user_id)

  abbrev world : Program → List Event
  world = served network grants target_port request reply proxies (found sixes (v4 a b c d) others)
