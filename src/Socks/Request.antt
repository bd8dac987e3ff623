-- ===== src/Socks/Request.antt =====
-- ss/socks.go: `request`, `handshake` and the replies of socks5Server. What a request reads and
-- writes beside the connection is the ruler rule.MatchRuler and, in enhancer mode, the fake IP
-- resolver. The statistics and the loop that waits for the end of the connection are left out.
use mini_ss.Common.{
  ℕ, ◌+◌, Bool, true, false, Option, none, some, [], ◌∷◌, if◌then◌else◌, ◌==◌, length, replicate,
}
use mini_ss.Common.Bytes.{Bytes, codes}
use mini_ss.Stream.{
  Error, Outcome, ok, err, panics, Io, M, ◌>>=◌, ◌>>◌, pure, fail, crash, read_full, byte_at, slice,
  put_byte, copy_at, write, version5_invalid, unsupported_req_cmd, rule_match_dropped, other,
}
use mini_ss.Address.Defs.{
  NetIp, pos, parse_address_from_reader, parse_address_from_host_port, host, port,
}
use mini_ss.Rule.Matcher.{Env}
use mini_ss.Rule.Ruler.{Ruler, match_target, select}
use mini_ss.Resolver.Pool.Defs.{contains}
use mini_ss.Resolver.FakeIp.Defs.{Record, FakeIpResolver, find_by_ip}
use mini_ss.Socks.Auth.{Auth}
use mini_ss.Socks.Defs.{expect_byte, negotiate}

-- netip.ParseAddr of a host: of an IPv6 address there is no more to know here.
pub data ParsedHost : Type 0 where
  not_ip : ParsedHost
  ipv4 : ℕ → ParsedHost
  ipv6 : ParsedHost

-- What a request asks of net and net/netip, and of the local UDP relay: the port that it listens on,
-- if it can, and the error that it ends with. That port is printed, joined with "127.0.0.1" and
-- parsed again.
pub record SocksNet : Type 0 where
  pub net_ip : NetIp
  pub parse_host : Bytes → ParsedHost
  pub join_host_port : Bytes → ℕ → Bytes
  pub listen_local_udp : Option ℕ
  pub relay_packets : Bytes → Option Error

-- The bytes behind the version: the command, a reserved byte and the address.
unfoldable pub read_request : M (ℕ × Bytes)
unfolding expect_byte parse_address_from_reader
read_request = do
  expect_byte 5 version5_invalid
  read_full 0 2
  cmd ← byte_at 0
  dst ← parse_address_from_reader
  pure (cmd, dst)

abbrev pub fresh_buffer : Io
fresh_buffer = record { input = []; output = []; buf = replicate 7 0 }

-- The address that a reply binds to, made in a buffer of seven bytes.
abbrev pub bind_addr : SocksNet → Bytes → ℕ → Outcome Bytes
bind_addr net ip p = (parse_address_from_host_port net.net_ip ip (pos p) fresh_buffer).0

-- Five, success, zero and an address are written.
unfoldable pub reply_success : Bytes → M (Unit {0})
reply_success bind = do
  put_byte 0 5
  put_byte 1 0
  put_byte 2 0
  copy_at 3 bind
  bytes ← slice 0 (3 + length bind)
  write bytes

abbrev pub reply_bound : Outcome Bytes → M (Unit {0})
reply_bound (ok bind) = reply_success bind
reply_bound (err e) = fail e
reply_bound panics = crash

unfoldable pub handle_cmd_connect : SocksNet → M (Unit {0})
unfolding reply_success parse_address_from_host_port
handle_cmd_connect net = reply_bound (bind_addr net (codes "0.0.0.0") 0)

-- The error of ParseAddress is not read: the address is then empty.
abbrev pub or_empty : Outcome Bytes → Outcome Bytes
or_empty (ok bind) = ok bind
or_empty (err e) = ok []
or_empty panics = panics

abbrev pub relayed : Option Error → M (Unit {0})
relayed none = pure tt
relayed (some e) = fail e

abbrev pub relay_selected : SocksNet → Outcome Bytes → M (Unit {0})
relay_selected net (ok proxy) = relayed (net.relay_packets proxy)
relay_selected net (err e) = fail e
relay_selected net panics = crash

abbrev pub udp_associated : SocksNet → Ruler → Option ℕ → M (Unit {0})
udp_associated net ruler none = fail (other 0)
udp_associated net ruler (some p) = do
  reply_bound (or_empty (bind_addr net (codes "127.0.0.1") p))
  relay_selected net (select ruler)

unfoldable pub handle_cmd_udp_associate : SocksNet → Ruler → M (Unit {0})
unfolding reply_success parse_address_from_host_port select
handle_cmd_udp_associate net ruler = udp_associated net ruler net.listen_local_udp

unfoldable pub handle_fail : ℕ → M (Unit {0})
handle_fail errno = write (5 ∷ errno ∷ 0 ∷ [])

-- The connection, the ruler, and the resolver in enhancer mode.
pub record Session (Msg : Type 0) : Type 0 where
  pub io : Io
  pub ruler : Ruler
  pub resolver : Option (FakeIpResolver Msg)

-- The command of a request whose destination the rules let through.
abbrev pub run_command : SocksNet → Ruler → ℕ → M (Unit {0})
run_command net ruler cmd =
    if cmd == 1
    then handle_cmd_connect net
    else if cmd == 3
    then handle_cmd_udp_associate net ruler
    else handle_fail 7 >> fail unsupported_req_cmd

module _ {Msg : Type 0} where
  abbrev pub renamed :
      Outcome (Record Msg) × FakeIpResolver Msg → Outcome Bytes × Option (FakeIpResolver Msg)
  renamed (ok found, r) = (ok found.domain, some r)
  renamed (err e, r) = (err e, some r)
  renamed (panics, r) = (panics, some r)

  -- The domain of a fake IP; the test of an IPv6 address panics.
  abbrev pub domain_of :
      FakeIpResolver Msg → ℕ → ℕ → Bytes → Outcome Bytes × Option (FakeIpResolver Msg)
  domain_of r now ip text =
      if contains r.pool ip then renamed (find_by_ip r now ip) else (ok text, some r)

  unfoldable pub real_host :
      SocksNet
      → Option (FakeIpResolver Msg)
      → ℕ
      → Bytes
      → Outcome Bytes × Option (FakeIpResolver Msg)
  unfolding contains find_by_ip
  real_host net none now text = (ok text, none)
  real_host net (some r) now text = elim (net.parse_host text) [
    | not_ip ↦ (ok text, some r)
    | ipv4 ip ↦ domain_of r now ip text
    | ipv6 ↦ (panics, some r)
  ]

  abbrev pub with_addr :
      Session Msg → Bytes → ℕ → Outcome (Unit {0}) × Io → Outcome (Bytes × ℕ) × Session Msg
  with_addr s addr cmd (ok done, io) = (ok (addr, cmd), record s { io = io })
  with_addr s addr cmd (err e, io) = (err e, record s { io = io })
  with_addr s addr cmd (panics, io) = (panics, record s { io = io })

  abbrev pub dispatch :
      SocksNet
      → Session Msg
      → ℕ
      → Bytes
      → Outcome (Bool × Ruler × Bytes)
      → Outcome (Bytes × ℕ) × Session Msg
  dispatch net s cmd dst (ok (true, ruler, text)) =
      let s' = record s { ruler = ruler } in
      with_addr s' (net.join_host_port text (port dst)) cmd (run_command net ruler cmd s.io)
  dispatch net s cmd dst (ok (false, ruler, text)) =
      (err rule_match_dropped, record s { ruler = ruler; io = (handle_fail 2 s.io).1 })
  dispatch net s cmd dst (err e) = (err e, s)
  dispatch net s cmd dst panics = (panics, s)

  abbrev pub to_host :
      SocksNet
      → Env
      → Session Msg
      → ℕ
      → Bytes
      → Outcome Bytes × Option (FakeIpResolver Msg)
      → Outcome (Bytes × ℕ) × Session Msg
  to_host net env s cmd dst (ok text, resolver) =
      dispatch net (record s { resolver = resolver }) cmd dst (match_target env s.ruler text)
  to_host net env s cmd dst (err e, resolver) = (err e, record s { resolver = resolver })
  to_host net env s cmd dst (panics, resolver) = (panics, record s { resolver = resolver })

  abbrev pub after_read :
      SocksNet
      → Env
      → Session Msg
      → ℕ
      → Outcome (ℕ × Bytes) × Io
      → Outcome (Bytes × ℕ) × Session Msg
  after_read net env s now (ok (cmd, dst), io) =
      to_host net env (record s { io = io }) cmd dst
        (real_host net s.resolver now (host net.net_ip dst))
  after_read net env s now (err e, io) = (err e, record s { io = io })
  after_read net env s now (panics, io) = (panics, record s { io = io })

  unfoldable pub request : SocksNet → Env → ℕ → Session Msg → Outcome (Bytes × ℕ) × Session Msg
  unfolding read_request real_host match_target handle_cmd_connect handle_cmd_udp_associate
      handle_fail host port
  request net env now s = after_read net env s now (read_request s.io)

  abbrev pub negotiated :
      SocksNet → Env → ℕ → Session Msg → Outcome (Unit {0}) × Io → Outcome (Bytes × ℕ) × Session Msg
  negotiated net env now s (ok done, io) = request net env now (record s { io = io })
  negotiated net env now s (err e, io) = (err e, record s { io = io })
  negotiated net env now s (panics, io) = (panics, record s { io = io })

  unfoldable pub handshake :
      SocksNet → Env → Option Auth → ℕ → Session Msg → Outcome (Bytes × ℕ) × Session Msg
  unfolding negotiate request
  handshake net env auth now s = negotiated net env now s (negotiate auth s.io)
