-- ===== src/Endpoints.antt =====
-- String.cpp: the texts of IP endpoints. `Spirit` and `Addresses` stand for the libraries.
pub mod Libraries
pub mod RoundTrip
pub mod Plain
mod Tests
use moose_tools.Prelude.{
  ℕ, ◌%◌, ◌^◌, Bool, Option, none, some, [], ◌∷◌, ◌++◌, Bytes, codes, leb, ◌==◌, ◌&&◌, ◌||◌,
}
use moose_tools.Errors.{Kind, Exception, Result, ok, thrown, ◌>>=◌, error_argument_string}
use Libraries.{is_digit, Spirit, Addresses}

-- What `qi::parse` comes to: a match with the rest, no match, or an exception of an action.
pub data Parsed (A : Type 0) : Type 0 where
  matched : A → Bytes → Parsed A
  failed : Parsed A
  raised : Parsed A

-- `char_("0-9\\.")` and `char_(":A-Fa-f0-9\\.")`; in such a set a backslash stands for itself.
unfoldable pub v4_char : ℕ → Bool
v4_char c = is_digit c || c == b'\\' || c == b'.'

unfoldable pub v6_char : ℕ → Bool
v6_char c =
    c == b':'
    || (leb b'A' c && leb c b'F')
    || (leb b'a' c && leb c b'f')
    || is_digit c
    || c == b'\\'
    || c == b'.'

-- `ip::address`
pub data IpAddress (V4 V6 : Type 0) : Type 0 where
  v4 : V4 → IpAddress V4 V6
  v6 : V6 → IpAddress V4 V6

unfoldable pub cannot_parse : Bytes → Exception
unfolding error_argument_string
cannot_parse text = record {
  kind = Kind.network_error;
  message = "Cannot parse IP";
  argument = some (error_argument_string text);
}

module _ {S : Spirit} (I : Addresses S) where
  abbrev pub Address : Type 0
  Address = IpAddress I.V4 I.V6

  -- `v4_from_str` and `v6_from_str`, which may throw
  unfoldable pub made_v4 : Option I.V4 → Bytes → Parsed Address
  made_v4 none rest = raised
  made_v4 (some a) rest = matched (v4 a) rest

  unfoldable pub made_v6 : Option I.V6 → Bytes → Parsed Address
  made_v6 none rest = raised
  made_v6 (some a) rest = matched (v6 a) rest

  -- `+char_` of the IPv4 rules, with the action
  unfoldable pub v4_rule : Bytes → Parsed Address
  unfolding made_v4
  v4_rule text = elim (S.plus_char v4_char text) [
    | none ↦ failed
    | some (w, rest) ↦ made_v4 (I.make_v4 w) rest
  ]

  unfoldable pub v6_closed : Bytes → Option Bytes → Parsed Address
  unfolding made_v6
  v6_closed w none = failed
  v6_closed w (some rest) = made_v6 (I.make_v6 w) rest

  -- `+char_ >> "]"` of the IPv6 rules, with the action
  unfoldable pub v6_rule : Bytes → Parsed Address
  unfolding v6_closed
  v6_rule text = elim (S.plus_char v6_char text) [
    | none ↦ failed
    | some (w, rest) ↦ v6_closed w (S.lit (codes "]") rest)
  ]

  unfoldable pub behind : (Bytes → Parsed Address) → Option Bytes → Parsed Address
  behind rule none = failed
  behind rule (some rest) = rule rest

  -- `|` tries the second rule where the first has not matched
  unfoldable pub otherwise : Parsed Address → Parsed Address → Parsed Address
  otherwise failed q = q
  otherwise p q = p

  unfoldable pub port_rule : Address → Option Bytes → Parsed (Address × ℕ)
  port_rule a none = failed
  port_rule a (some text) = elim (S.uint_ text) [
    | none ↦ failed
    | some (n, rest) ↦ matched (a, n) rest
  ]

  -- `>> ":" >> uint_`
  unfoldable pub with_port : Parsed Address → Parsed (Address × ℕ)
  unfolding port_rule
  with_port failed = failed
  with_port raised = raised
  with_port (matched a rest) = port_rule a (S.lit (codes ":") rest)

  -- `google_ip_parser`
  unfoldable pub google_ip_parser : Bytes → Parsed (Address × ℕ)
  unfolding with_port otherwise behind v4_rule v6_rule
  google_ip_parser text = with_port (
      otherwise (behind v4_rule (S.lit (codes "ipv4:") text))
        (behind v6_rule (S.lit (codes "ipv6:[") text)))

  -- `ip_parser`
  ip_parser : Bytes → Parsed (Address × ℕ)
  unfolding with_port otherwise behind v4_rule v6_rule
  ip_parser text = with_port (otherwise (v4_rule text) (behind v6_rule (S.lit (codes "[") text)))

  -- The port is assigned to an `unsigned short`.
  unfoldable pub accepted : Bytes → Parsed (Address × ℕ) → Result (Address × ℕ)
  accepted text (matched (a, n) []) = ok (a, n % 2 ^ 16)
  accepted text _ = thrown (cannot_parse text)

  unfoldable pub from_google_ep : Bytes → Result (Address × ℕ)
  unfolding google_ip_parser accepted
  from_google_ep text = accepted text (google_ip_parser text)

  -- The overload without a port.
  from_google_ep_address : Bytes → Result Address
  unfolding from_google_ep
  from_google_ep_address text = do (address, _) ← from_google_ep text; ok address

  pub string_to_udp_endpoint : Bytes → Result (Address × ℕ)
  unfolding ip_parser accepted
  string_to_udp_endpoint text = accepted text (ip_parser text)

  -- `operator<<` of an endpoint
  unfoldable pub endpoint_to_string : Address × ℕ → Bytes
  endpoint_to_string (v4 a, port) = I.show_v4 a ++ (codes ":" ++ I.show_port port)
  endpoint_to_string (v6 a, port) = codes "[" ++ (I.show_v6 a ++ (codes "]:" ++ I.show_port port))
