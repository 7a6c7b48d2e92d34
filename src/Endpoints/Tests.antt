-- ===== src/Endpoints/Tests.antt =====
-- Concrete endpoints, and the theorems at them.
use moose_tools.Prelude.{◌≡◌, refl, codes, arith}
use moose_tools.Errors.{ok}
use moose_tools.Endpoints.{
  v4, v6, from_google_ep, string_to_udp_endpoint, endpoint_to_string, v4_char,
}
use moose_tools.Endpoints.Libraries.{IsIn}
use moose_tools.Endpoints.Plain.{
  hosts, localhost, loopback, plus, span, some_run, number, value, make_host4, strip, scope,
}
use moose_tools.Endpoints.RoundTrip.{string_to_udp_endpoint-endpoint_to_string, from_google_ep_v4}

string_to_udp_endpoint-endpoint_to_string_example :
    string_to_udp_endpoint hosts (endpoint_to_string hosts (v6 loopback, 443))
    ≡ ok (v6 loopback, 443)
unfolding scope
string_to_udp_endpoint-endpoint_to_string_example =
    string_to_udp_endpoint-endpoint_to_string hosts (v6 loopback) 443 refl (omega arith)

localhost_chars : IsIn v4_char (codes "127.0.0.1")
unfolding v4_char
localhost_chars = (refl, (refl, (refl, (refl, (refl, (refl, (refl, (refl, (refl, tt)))))))))

from_google_ep_v4_example :
    from_google_ep hosts (codes "ipv4:127.0.0.1:65617") ≡ ok (v4 localhost, 81)
unfolding plus span some_run number value make_host4 strip
from_google_ep_v4_example =
    from_google_ep_v4 hosts (codes "127.0.0.1") (codes "65617") 65617 (λ e. cc) localhost_chars refl
