-- ===== src/Socks/RequestExamples.antt =====
-- The witness of the request, and tests: a CONNECT in GLOBAL mode, a fake IP, and an IPv6 address.
use mini_ss.Common.{
  ℕ, ◌≡◌, refl, true, Option, none, some, [], ◌∷◌, ◌++◌, replicate, arith, if◌then◌else◌,
}
use mini_ss.Common.Bytes.{Bytes, codes, bytes_beq}
use mini_ss.Stream.{ok, panics}
use mini_ss.Address.Defs.{host, port}
use mini_ss.Address.Wire.{Addr, domain, encode}
use mini_ss.Rule.Item.{global}
use mini_ss.Rule.Ruler.{Ruler, match_target, auto_select}
use mini_ss.Rule.Examples.{env}
use mini_ss.Resolver.FakeIp.Defs.{FakeIpResolver}
use mini_ss.Socks.Request.{SocksNet, Session, not_ip, ipv6, real_host, request}
use mini_ss.Socks.Replies.{asked, any_ip}
use mini_ss.Socks.Destinations.{Answered, destination, reply, request-Answered}

abbrev net : SocksNet
net = record {
  net_ip = record {
    parse_ip = λ h. if bytes_beq h (codes "0.0.0.0") then some any_ip else none;
    print_ip = λ ip. [];
  };
  parse_host = λ h. if bytes_beq h (codes "::1") then ipv6 else not_ip;
  join_host_port = λ h p. h ++ b':' ∷ [];
  listen_local_udp = none;
  relay_packets = λ proxy. none;
}

abbrev site : Addr
site = domain (codes "a.com") (1 ∷ 187 ∷ [])

abbrev ruler : Ruler
ruler = record {
  rule_mode = global;
  matched = none;
  ms = [];
  direct_to = [];
  global_to = codes "p";
}

abbrev ruler_after : Ruler
ruler_after = record ruler { matched = some (auto_select global) }

abbrev room : Bytes
room = replicate 515 0

abbrev not_enhanced : Option (FakeIpResolver ℕ)
not_enhanced = none

abbrev session : Session ℕ
session = record {
  io = record { input = asked 1 0 (encode site) (7 ∷ []); output = []; buf = room };
  ruler = ruler;
  resolver = not_enhanced;
}

same_host :
    real_host net not_enhanced 0 (host net.net_ip (encode site))
    ≡ (ok (codes "a.com"), not_enhanced)
unfolding real_host host
same_host = refl

let_through : match_target env ruler (codes "a.com") ≡ ok (true, ruler_after, codes "a.com")
unfolding match_target
let_through = refl

any_parsed : net.net_ip.parse_ip (codes "0.0.0.0") ≡ some any_ip
unfolding bytes_beq
any_parsed = refl

request_example :
    Answered
      (destination true 1 (net.join_host_port (codes "a.com") (port (encode site))))
      ruler_after
      not_enhanced
      (7 ∷ [])
      ([] ++ reply true 1)
      (request net env 0 session)
request_example =
    request-Answered net env 0 1 0 site (7 ∷ []) [] room (codes "a.com") (codes "a.com") ruler
      ruler_after not_enhanced not_enhanced true (omega arith) (omega arith) (omega arith)
      any_parsed same_host let_through

-- In enhancer mode the address of an IPv6 host panics.
ipv6_host : (r : FakeIpResolver ℕ) → real_host net (some r) 0 (codes "::1") ≡ (panics, some r)
unfolding real_host bytes_beq
ipv6_host r = refl
