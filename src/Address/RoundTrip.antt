-- ===== src/Address/RoundTrip.antt =====
-- `Host` and `Port` read back what `ParseAddressFromHostPort` wrote.
use mini_ss.Common.{
  ap, ℕ, ◌+◌, ◌≤◌, ◌≡◌, sym, ◌∙◌, inl, inr, ◌∷◌, ◌++◌, arith, length, length-append, take-append,
  none, some, Option-cases, get_or-append_right,
}
use mini_ss.Common.Bytes.{Bytes}
use mini_ss.Stream.{ok, Io}
use mini_ss.Address.Defs.{
  NetIp, ℤ, pos, negsuc, to4, parse_address_from_host_port, host, port, be16_at,
}
use mini_ss.Address.Wire.{ipv4, ipv6, domain, encode}
use mini_ss.Address.HostPort.{
  IsNet, port_bytes, host_port_result, parse_address_from_host_port_lem, to4-length,
}

-- The text of the host: an IP address in the form that `net.IP.String` gives, a name as it was.
abbrev pub canonical_host : NetIp → Bytes → Bytes
canonical_host net h = elim (net.parse_ip h) [
  | some ip ↦ elim (to4 ip) [ some ip4 ↦ net.print_ip ip4 | none ↦ net.print_ip ip ]
  | none ↦ h
]

port_lem : (xs : Bytes) (p : ℕ) → p ≤ 65535 → be16_at (xs ++ port_bytes p) (length xs) ≡ p
port_lem xs p small =
    let e : length xs ≡ length xs + 0 = omega arith in
    ground (
      arith,
      e,
      get_or-append_right xs (port_bytes p) 0 0,
      get_or-append_right xs (port_bytes p) 1 0,
    )

module _ (net : NetIp) (p : ℕ) (small : p ≤ 65535) where
  read_ipv4 :
      (ip : Bytes)
      → length ip ≡ 4
      → let a = encode (ipv4 ip (port_bytes p)) in (port a ≡ p) × (host net a ≡ net.print_ip ip)
  unfolding host port
  read_ipv4 ip l = ground (
    arith,
    l,
    port_lem (1 ∷ ip) p small,
    length-append ip (port_bytes p),
    take-append ip (port_bytes p),
  )

  read_ipv6 :
      (ip : Bytes)
      → length ip ≡ 16
      → let a = encode (ipv6 ip (port_bytes p)) in (port a ≡ p) × (host net a ≡ net.print_ip ip)
  unfolding host port
  read_ipv6 ip l = ground (
    arith,
    l,
    port_lem (4 ∷ ip) p small,
    length-append ip (port_bytes p),
    take-append ip (port_bytes p),
  )

  read_domain :
      (d : Bytes) → let a = encode (domain d (port_bytes p)) in (port a ≡ p) × (host net a ≡ d)
  unfolding host port
  read_domain d = ground (
    arith,
    port_lem (3 ∷ length d ∷ d) p small,
    length-append d (port_bytes p),
    take-append d (port_bytes p),
  )

-- Where a host and a port are accepted, the address has that port and that host.
pub parse_address_from_host_port-host-port :
    (net : NetIp) (h : Bytes) (p : ℤ) (s : Io) {a : Bytes}
    → IsNet net
    → (parse_address_from_host_port net h p s).0 ≡ ok a
    → (pos (port a) ≡ p) × (host net a ≡ canonical_host net h)
parse_address_from_host_port-host-port net h (negsuc n) s lawful e =
    absurd (ground (arith, e, parse_address_from_host_port_lem net lawful h s (negsuc n)))
parse_address_from_host_port-host-port net h (pos p) s {a} lawful e =
    let (same_port, same_host) = found in (ap (λ n. pos n) same_port, same_host)
  where
    shape : host_port_result net h (pos p) (length s.buf) ≡ ok a
    shape = sym (parse_address_from_host_port_lem net lawful h s (pos p)) ∙ e

    found : (port a ≡ p) × (host net a ≡ canonical_host net h)
    found = elim (Option-cases (net.parse_ip h)) [
      | inl name ↦ grind (arith, read_domain net p, name, shape)
      | inr (ip, parsed) ↦
          let size : length ip ≡ 16 = lawful.parse_ip_length h ip parsed in
          elim (Option-cases (to4 ip)) [
            | inl v6 ↦ grind (arith, read_ipv6 net p, parsed, v6, shape)
            | inr (ip4, v4) ↦
                grind (arith, read_ipv4 net p, to4-length ip size v4, parsed, v4, shape)
          ]
    ]
