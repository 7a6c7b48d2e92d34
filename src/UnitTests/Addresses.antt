-- ===== src/UnitTests/Addresses.antt =====
-- test/TestString.cpp: the cases on the texts of addresses, for any addresses over the parsers of
-- Endpoints/Plain.
use moose_tools.Prelude.{
  ℕ, ◌≡◌, refl, ap, Bool, true, false, Option, none, some, [], ◌∷◌, Bytes, codes,
}
use moose_tools.Errors.{Kind, Result, ok, thrown}
use moose_tools.Paths.{bytes_eq}
use moose_tools.Endpoints.{
  from_google_ep, google_ip_parser, accepted, with_port, otherwise, behind, v4_rule, v6_rule,
  made_v4, Address, failed, made_v6, v6_closed, port_rule, cannot_parse, v4_char, v6_char, v4, v6,
  endpoint_to_string,
}
use moose_tools.Endpoints.Libraries.{Spirit, Addresses}
use moose_tools.Endpoints.Plain.{plain, plus, span, some_run, number, value, strip}
use moose_tools.UnitTests.{Checks, passes, all_hold}

-- `BOOST_CHECK_NO_THROW`, and `BOOST_CHECK_THROW` with `network_error`.
unfoldable no_throw {ℓ} : {A : Type ℓ} → Result A → Bool
no_throw (ok a) = true
no_throw (thrown e) = false

unfoldable throws_network_error {ℓ} : {A : Type ℓ} → Result A → Bool
throws_network_error (ok a) = false
throws_network_error (thrown e) = elim e.kind [ Kind.network_error ↦ true | _ ↦ false ]

module _ {S : Spirit} (I : Addresses S) where
  -- The case `ParseIp`.
  unfoldable parse_ip : Checks
  unfolding no_throw throws_network_error
  parse_ip = ok (
      no_throw (from_google_ep I (codes "ipv4:192.168.178.30:61184"))
      ∷ no_throw (from_google_ep I (codes "ipv6:[2a02:810d:e40:67c:adb3:f561:144f:89f5]:61176"))
      ∷ throws_network_error
          (from_google_ep I (codes "ipv6:[2a02:810dsgdc:adb3:f561:144f:89f5]:61176"))
      ∷ throws_network_error (from_google_ep I (codes "ipdyfa6"))
      ∷ throws_network_error (from_google_ep I (codes "ipv4:192."))
      ∷ [])

  -- The case `AsioEP`, with the address that the library makes of the text "127.0.0.1".
  unfoldable asio_ep : I.V4 → Checks
  asio_ep address =
      ok (bytes_eq (endpoint_to_string I (v4 address, 42)) (codes "127.0.0.1:42") ∷ [])

module _ (I : Addresses plain) where
  abbrev outcome4 : Bytes → Bytes → Option I.V4 → Result (Address I × ℕ)
  outcome4 text rest made = accepted I text (with_port I (otherwise I (made_v4 I made rest) failed))

  abbrev outcome6 : Bytes → Bytes → Option I.V6 → Result (Address I × ℕ)
  outcome6 text rest made = accepted I text (with_port I (made_v6 I made rest))

  from_google_ep-v4 :
      (a : I.V4)
      → I.make_v4 (codes "192.168.178.30") ≡ some a
      → from_google_ep I (codes "ipv4:192.168.178.30:61184") ≡ ok (v4 a, 61184)
  unfolding from_google_ep google_ip_parser accepted with_port otherwise behind v4_rule v6_rule
      made_v4 made_v6 v6_closed port_rule v4_char v6_char plus span some_run number value strip
  from_google_ep-v4 a e = ap (outcome4 (codes "ipv4:192.168.178.30:61184") (codes ":61184")) e

  from_google_ep-v6 :
      (b : I.V6)
      → I.make_v6 (codes "2a02:810d:e40:67c:adb3:f561:144f:89f5") ≡ some b
      → from_google_ep I (codes "ipv6:[2a02:810d:e40:67c:adb3:f561:144f:89f5]:61176")
        ≡ ok (v6 b, 61176)
  unfolding from_google_ep google_ip_parser accepted with_port otherwise behind v4_rule v6_rule
      made_v4 made_v6 v6_closed port_rule v4_char v6_char plus span some_run number value strip
  from_google_ep-v6 b e =
      ap (outcome6 (codes "ipv6:[2a02:810d:e40:67c:adb3:f561:144f:89f5]:61176") (codes ":61176")) e

  from_google_ep-cut :
      I.make_v4 (codes "192.") ≡ none
      → from_google_ep I (codes "ipv4:192.") ≡ thrown (cannot_parse (codes "ipv4:192."))
  unfolding from_google_ep google_ip_parser accepted with_port otherwise behind v4_rule v6_rule
      made_v4 made_v6 v6_closed port_rule v4_char v6_char plus span some_run number value strip
  from_google_ep-cut e = ap (outcome4 (codes "ipv4:192.") []) e

  from_google_ep-bad :
      (from_google_ep I (codes "ipv6:[2a02:810dsgdc:adb3:f561:144f:89f5]:61176")
        ≡ thrown (cannot_parse (codes "ipv6:[2a02:810dsgdc:adb3:f561:144f:89f5]:61176")))
      × (from_google_ep I (codes "ipdyfa6") ≡ thrown (cannot_parse (codes "ipdyfa6")))
  unfolding from_google_ep google_ip_parser accepted with_port otherwise behind v4_rule v6_rule
      made_v4 made_v6 v6_closed port_rule v4_char v6_char plus span some_run number value strip
  from_google_ep-bad = (refl, refl)

  -- The case `ParseIp` passes if the library makes addresses of the two texts that are addresses, and
  -- none of "192.".
  parse_ip-passes :
      (a : I.V4) (b : I.V6)
      → I.make_v4 (codes "192.168.178.30") ≡ some a
      → I.make_v6 (codes "2a02:810d:e40:67c:adb3:f561:144f:89f5") ≡ some b
      → I.make_v4 (codes "192.") ≡ none
      → passes (parse_ip I) ≡ true
  unfolding parse_ip
  parse_ip-passes a b e4 e6 e0 =
      rw
        (
          from_google_ep-v4 a e4,
          from_google_ep-v6 b e6,
          from_google_ep-cut e0,
          from_google_ep-bad.0,
          from_google_ep-bad.1,
        )
        (unfold passes all_hold no_throw throws_network_error cannot_parse in refl)

  -- The case `AsioEP` passes if the library writes the address and the port as the case has them.
  asio_ep-passes :
      (a : I.V4)
      → I.show_v4 a ≡ codes "127.0.0.1"
      → I.show_port 42 ≡ codes "42"
      → passes (asio_ep I a) ≡ true
  unfolding asio_ep passes all_hold endpoint_to_string
  asio_ep-passes a e p = rw (e, p) refl
