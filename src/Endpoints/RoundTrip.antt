-- ===== src/Endpoints/RoundTrip.antt =====
-- String.cpp: endpoints written and read.
use moose_tools.Prelude.{
  ℕ, ◌<◌, ◌%◌, ◌^◌, ◌≡◌, ◌≢◌, refl, ap, Bool, true, Option, none, some, [], ◌∷◌, ◌++◌, Bytes, codes,
  arith,
}
use moose_tools.Errors.{Result, ok, thrown}
use moose_tools.Endpoints.Libraries.{Spirit, Addresses, IsIn}
use moose_tools.Endpoints.{
  Parsed, matched, failed, v4, v6, Address, v4_char, v6_char, made_v4, made_v6, v4_rule, v6_rule,
  v6_closed, with_port, port_rule, otherwise, behind, google_ip_parser, ip_parser, accepted,
  from_google_ep, string_to_udp_endpoint, endpoint_to_string, cannot_parse,
}

IsIn-mono : (p q : ℕ → Bool) (w : Bytes) → ((c : ℕ) → p c ≡ true → q c ≡ true) → IsIn p w → IsIn q w
IsIn-mono p q [] imp h = tt
IsIn-mono p q (c ∷ w) imp (h, hs) = (imp c h, IsIn-mono p q w imp hs)

module _ {S : Spirit} (I : Addresses S) where
  nonempty : (w : Bytes) (c : ℕ) (cs : Bytes) → w ≡ c ∷ cs → w ≢ []
  nonempty w c cs e f = cc

  v4_text : (a : I.V4) → (I.show_v4 a ≢ []) × IsIn v4_char (I.show_v4 a)
  unfolding v4_char
  v4_text a =
      let (c, cs, e) = I.show_v4_head a in
      (
        nonempty (I.show_v4 a) c cs e,
        IsIn-mono _ v4_char (I.show_v4 a) (λ c h. ground arith) (I.show_v4_chars a),
      )

  v6_text : (a : I.V6) → I.scope_id a ≡ 0 → (I.show_v6 a ≢ []) × IsIn v6_char (I.show_v6 a)
  unfolding v6_char
  v6_text a z =
      let (c, cs, e) = I.show_v6_head a in
      (
        nonempty (I.show_v6 a) c cs e,
        IsIn-mono _ v6_char (I.show_v6 a) (λ c h. ground arith) (I.show_v6_chars a z),
      )

  v4_rule-show :
      (w : Bytes) (a : I.V4) (rest : Bytes)
      → w ≢ []
      → IsIn v4_char w
      → I.make_v4 w ≡ some a
      → v4_rule I (w ++ (codes ":" ++ rest)) ≡ matched (v4 a) (codes ":" ++ rest)
  unfolding v4_char v4_rule
  v4_rule-show w a rest n i m =
      rw (v4_rule, S.plus_char_complete v4_char w (codes ":" ++ rest) n i refl, m)
        (unfold made_v4 in refl)

  v6_rule-show :
      (w : Bytes) (a : I.V6) (rest : Bytes)
      → w ≢ []
      → IsIn v6_char w
      → I.make_v6 w ≡ some a
      → v6_rule I (w ++ (codes "]" ++ rest)) ≡ matched (v6 a) rest
  unfolding v6_char v6_rule
  v6_rule-show w a rest n i m =
      rw
        (
          v6_rule,
          S.plus_char_complete v6_char w (codes "]" ++ rest) n i refl,
          v6_closed,
          S.lit_complete (codes "]") rest,
          m,
        )
        (unfold made_v6 in refl)

  with_port-show :
      (a : Address I) (digits : Bytes) (n : ℕ)
      → S.uint_ digits ≡ some (n, [])
      → with_port I (matched a (codes ":" ++ digits)) ≡ matched (a, n) []
  unfolding with_port port_rule
  with_port-show a digits n u = rw (S.lit_complete (codes ":") digits, port_rule, u) refl

  -- An address whose text is the one that the grammars read: not a scoped one.
  abbrev IsPlain : Address I → Type 0
  IsPlain (v4 a) = Unit
  IsPlain (v6 a) = I.scope_id a ≡ 0

  v4_rule_bracket : (rest : Bytes) → v4_rule I (codes "[" ++ rest) ≡ failed
  unfolding v4_rule v4_char
  v4_rule_bracket rest = rw (v4_rule, S.plus_char_none v4_char (codes "[" ++ rest) refl)

  ip_parser-show :
      (a : Address I) (port : ℕ)
      → IsPlain a
      → port < 2 ^ 16
      → ip_parser I (endpoint_to_string I (a, port)) ≡ matched (a, port) []
  unfolding ip_parser endpoint_to_string otherwise
  ip_parser-show (v4 a) port p fits =
      let (n, i) = v4_text a in
      rw (v4_rule-show (I.show_v4 a) a (I.show_port port) n i (I.make-show_v4 a))
        (with_port-show (v4 a) (I.show_port port) port (I.uint_-show_port port fits))
  ip_parser-show (v6 a) port p fits =
      let (n, i) = v6_text a p in
      let rest = codes ":" ++ I.show_port port in
      let inner = I.show_v6 a ++ (codes "]" ++ rest) in
      rw (v4_rule_bracket inner, S.lit_complete (codes "[") inner)
        (unfold behind in
          rw (v6_rule-show (I.show_v6 a) a rest n i (I.make-show_v6 a))
            (with_port-show (v6 a) (I.show_port port) port (I.uint_-show_port port fits)))

  -- For an IPv4 address or an IPv6 address without a scope, and a 16-bit port: the text of the
  -- endpoint is read back as that endpoint.
  pub string_to_udp_endpoint-endpoint_to_string :
      (a : Address I) (port : ℕ)
      → IsPlain a
      → port < 2 ^ 16
      → string_to_udp_endpoint I (endpoint_to_string I (a, port)) ≡ ok (a, port)
  unfolding string_to_udp_endpoint accepted
  string_to_udp_endpoint-endpoint_to_string a port p fits =
      rw (ip_parser-show a port p fits) (ap (λ (n : ℕ). ok (a, n)) (omega arith))

  -- "ipv4:", the text of an address, ":" and a number.
  abbrev google_v4 : (w digits : Bytes) → Bytes
  google_v4 w digits = codes "ipv4:" ++ (w ++ (codes ":" ++ digits))

  -- The address with the number modulo 2 ^ 16; or the exception that names the text.
  abbrev pub outcome : Bytes → Option I.V4 → ℕ → Result (Address I × ℕ)
  outcome text none n = thrown (cannot_parse text)
  outcome text (some a) n = ok (v4 a, n % 2 ^ 16)

  v4_rule-made :
      (w rest : Bytes)
      → w ≢ []
      → IsIn v4_char w
      → v4_rule I (w ++ (codes ":" ++ rest)) ≡ made_v4 I (I.make_v4 w) (codes ":" ++ rest)
  unfolding v4_char v4_rule
  v4_rule-made w rest n i =
      rw (v4_rule, S.plus_char_complete v4_char w (codes ":" ++ rest) n i refl)

  ended :
      (text digits : Bytes) (n : ℕ) (o : Option I.V4) (q : Parsed (Address I))
      → S.uint_ digits ≡ some (n, [])
      → accepted I text (with_port I (otherwise I (made_v4 I o (codes ":" ++ digits)) q))
        ≡ outcome text o n
  unfolding accepted otherwise made_v4
  ended text digits n none q u = unfold with_port in refl
  ended text digits n (some a) q u = rw (with_port-show (v4 a) digits n u)

  -- A text "ipv4:", a run of digits, dots and backslashes, ":" and a number up to 2 ^ 32 - 1: if the
  -- run is no address, `from_google_ep` throws a network_error that names the text; else it returns
  -- the address, and of the number what is left modulo 2 ^ 16.
  pub from_google_ep_v4 :
      (w digits : Bytes) (n : ℕ)
      → w ≢ []
      → IsIn v4_char w
      → S.uint_ digits ≡ some (n, [])
      → from_google_ep I (google_v4 w digits) ≡ outcome (google_v4 w digits) (I.make_v4 w) n
  unfolding from_google_ep google_ip_parser behind
  from_google_ep_v4 w digits n h i u =
      rw (S.lit_complete (codes "ipv4:") (w ++ (codes ":" ++ digits)), v4_rule-made w digits h i)
        (ended (google_v4 w digits) digits n (I.make_v4 w) _ u)
