-- ===== src/Socks/Destinations.antt =====
-- `request` of ss/socks.go against the rules, for the commands that do not wait for a UDP relay.
use mini_ss.Common.{
  ℕ, ◌≤◌, ◌≡◌, ◌≢◌, refl, sym, ap, subst, ◌∙◌, Bool, true, false, Option, some, [], ◌∷◌, ◌++◌,
  if◌then◌else◌, ◌==◌, ==_iff, length, arith, inl, inr, Bool-cases,
}
use mini_ss.Common.Bytes.{Bytes, codes}
use mini_ss.Stream.{Outcome, ok, err, write, unsupported_req_cmd, rule_match_dropped}
use mini_ss.Address.Defs.{host, port}
use mini_ss.Address.Wire.{Addr, encode, IsAddr, max_address_buffer_size}
use mini_ss.Rule.Matcher.{Env}
use mini_ss.Rule.Ruler.{Ruler, match_target}
use mini_ss.Resolver.FakeIp.Defs.{FakeIpResolver}
use mini_ss.Socks.Request.{
  SocksNet, Session, read_request, handle_fail, real_host, dispatch, to_host, after_read, request,
}
use mini_ss.Socks.Replies.{
  asked, filled, length-filled, read_request-read, success, any_ip, any_addr,
  handle_cmd_connect-write,
}

-- What the client is sent, and what the request comes to.
abbrev pub reply : Bool → ℕ → Bytes
reply answer cmd =
    if answer then (if cmd == 1 then success any_addr else 5 ∷ 7 ∷ 0 ∷ []) else 5 ∷ 2 ∷ 0 ∷ []

abbrev pub destination : Bool → ℕ → Bytes → Outcome (Bytes × ℕ)
destination answer cmd addr =
    if answer
    then (if cmd == 1 then ok (addr, cmd) else err unsupported_req_cmd)
    else err rule_match_dropped

module _ {Msg : Type 0} where
  -- A request that ended with this result, ruler and resolver, with these bytes unread and written.
  pub record Answered (result : Outcome (Bytes × ℕ)) (ruler : Ruler)
      (resolver : Option (FakeIpResolver Msg)) (unread written : Bytes)
      (r : Outcome (Bytes × ℕ) × Session Msg) : Type 0 where
    pub result_is : r.0 ≡ result
    pub ruler_is : r.1.ruler ≡ ruler
    pub resolver_is : r.1.resolver ≡ resolver
    pub input_is : r.1.io.input ≡ unread
    pub output_is : r.1.io.output ≡ written

  module _ (net : SocksNet) (rest output b : Bytes) (cmd : ℕ) (dst text : Bytes) (r ruler : Ruler)
      (resolver : Option (FakeIpResolver Msg))
      (any : net.net_ip.parse_ip (codes "0.0.0.0") ≡ some any_ip) (not_udp : cmd ≢ 3)
      (room : max_address_buffer_size ≤ length b) where
    dispatched :
        (answer : Bool)
        → Answered
            (destination answer cmd (net.join_host_port text (port dst)))
            ruler
            resolver
            rest
            (output ++ reply answer cmd)
            (dispatch net
              (record {
                io = record { input = rest; output = output; buf = b };
                ruler = r;
                resolver = resolver;
              })
              cmd
              dst
              (ok (answer, ruler, text)))
    unfolding handle_fail write
    dispatched false = record {
      result_is = refl;
      ruler_is = refl;
      resolver_is = refl;
      input_is = refl;
      output_is = refl;
    }
    dispatched true = elim (Bool-cases (cmd == 1)) [
      | inl connect ↦
          simp (connect, handle_cmd_connect-write net rest output b any room)
            (record {
              result_is = refl;
              ruler_is = refl;
              resolver_is = refl;
              input_is = refl;
              output_is = refl;
            })
      | inr other ↦
          simp (other, not_three)
            (record {
              result_is = refl;
              ruler_is = refl;
              resolver_is = refl;
              input_is = refl;
              output_is = refl;
            })
    ]
      where
        not_three : (cmd == 3) ≡ false
        not_three = ground (arith, not_udp, ==_iff cmd 3)

  -- A request for CONNECT, or for a command that is not known, with an address in the wire format and
  -- any reserved byte: exactly these bytes are read. Where the destination, or in enhancer mode the
  -- domain that its fake IP stands for, is let through by the rules, CONNECT is answered with success
  -- and gives the destination as the rules have left it with the port of the address, and another
  -- command is answered with code 7; where the rules drop it, the answer has code 2. Conditions: the
  -- command is not UDP ASSOCIATE, the buffer can hold an address, the host is found and the rules do
  -- not panic, and net.ParseIP reads "0.0.0.0".
  pub request-Answered :
      (net : SocksNet) (env : Env) (now cmd rsv : ℕ) (x : Addr) (rest output b text last : Bytes)
      (r ruler : Ruler) (resolver resolver' : Option (FakeIpResolver Msg)) (answer : Bool)
      → IsAddr x
      → max_address_buffer_size ≤ length b
      → cmd ≢ 3
      → net.net_ip.parse_ip (codes "0.0.0.0") ≡ some any_ip
      → real_host net resolver now (host net.net_ip (encode x)) ≡ (ok text, resolver')
      → match_target env r text ≡ ok (answer, ruler, last)
      → Answered
          (destination answer cmd (net.join_host_port last (port (encode x))))
          ruler
          resolver'
          rest
          (output ++ reply answer cmd)
          (request net env now (record {
            io = record { input = asked cmd rsv (encode x) rest; output = output; buf = b };
            ruler = r;
            resolver = resolver;
          }))
  unfolding request
  request-Answered net env now cmd rsv x rest output b text last r ruler resolver resolver' answer
        good room not_udp any named matched =
      let dst = encode x in
      let s0 : Session Msg = record {
        io = record { input = asked cmd rsv dst rest; output = output; buf = b };
        ruler = r;
        resolver = resolver;
      } in
      let s1 : Session Msg = record s0 {
        io = record { input = rest; output = output; buf = filled cmd rsv dst b };
      } in
      let whole : after_read net env s0 now (read_request s0.io)
          ≡ dispatch net (record s1 { resolver = resolver' }) cmd dst (ok (answer, ruler, last)) =
        ap (λ o. after_read net env s0 now o) (read_request-read cmd rsv x rest output b good room)
        ∙ ap (λ o. to_host net env s1 cmd dst o) named
        ∙ ap (λ o. dispatch net (record s1 { resolver = resolver' }) cmd dst o) matched in
      subst
        (Answered (destination answer cmd (net.join_host_port last (port dst))) ruler resolver' rest
          (output ++ reply answer cmd))
        (sym whole)
        (dispatched net rest output (filled cmd rsv dst b) cmd dst last r ruler resolver' any
          not_udp (omega (arith, length-filled cmd rsv dst b, room)) answer)
