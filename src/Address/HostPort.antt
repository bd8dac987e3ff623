-- ===== src/Address/HostPort.antt =====
-- `ParseAddressFromHostPort` against the wire format, and `Host` and `Port` as its inverse.
use mathlib.Core.List.{append_assoc}
use mini_ss.Common.{
  Bool, ◌&&◌, ◌||◌, ℕ, ◌+◌, ◌/◌, ◌%◌, ◌^◌, ◌≤◌, ◌≡◌, inl, inr, [], ◌∷◌, ◌++◌, arith, ltb, ◌==◌,
  length, length-append, length-drop, if◌then◌else◌, true, false, Option, none, some, Option-cases,
}
use mini_ss.Common.Bytes.{Bytes}
use mini_ss.Stream.{
  Outcome, ok, err, Io, put_byte, copy_at, ◌>>◌, invalid_host_or_port, domain_length_too_long,
  short_buffer,
}
use mini_ss.Stream.Fill.{after, splice_nil, slice_seen, put_next, copy_next}
use mini_ss.Address.Defs.{
  NetIp, ℤ, pos, negsuc, write_address, to4, write_port, parse_address_from_host_port,
}
use mini_ss.Address.Wire.{Addr, ipv4, ipv6, domain, encode}

-- A port's two bytes, high byte first.
abbrev pub port_bytes : ℕ → Bytes
port_bytes p = (p / 2 ^ 8 % 256) ∷ (p % 256) ∷ []

-- The address that a host and a port stand for.
abbrev pub address_of : NetIp → Bytes → ℕ → Addr
address_of net h p = elim (net.parse_ip h) [
  | some ip ↦ elim (to4 ip) [ some ip4 ↦ ipv4 ip4 (port_bytes p) | none ↦ ipv6 ip (port_bytes p) ]
  | none ↦ domain h (port_bytes p)
]

abbrev is_none {ℓ} : {A : Type ℓ} → Option A → Bool
is_none none = true
is_none (some a) = false

-- net.ParseIP returns sixteen bytes.
pub record IsNet (net : NetIp) : Type 0 where
  pub parse_ip_length : (h ip : Bytes) → net.parse_ip h ≡ some ip → length ip ≡ 16

-- Bytes in front, and a port behind them.
filled :
    (seen output input b : Bytes) (p : ℕ)
    → length seen + 2 ≤ length b
    → (write_port (length seen) p (after seen input output b)).0 ≡ ok (seen ++ port_bytes p)
unfolding write_port
filled seen output input b p h =
    let hi : ℕ = p / 2 ^ 8 % 256 in
    let lo : ℕ = p % 256 in
    ground (
      arith,
      put_next seen input output b hi (omega arith),
      put_next (seen ++ hi ∷ []) input output b lo (omega (arith, length-append seen (hi ∷ []))),
      slice_seen (seen ++ port_bytes p) output b (omega (arith, length-append seen (port_bytes p)))
          input,
      length-append seen (hi ∷ []),
      length-append seen (port_bytes p),
      append_assoc seen (hi ∷ []) (lo ∷ []),
    )

-- The bytes `t`, the bytes of a host behind it, and the port.
filled_from_type :
    (t : ℕ) (h : Bytes) (p : ℕ) (s : Io)
    → 1 + length h + 2 ≤ length s.buf
    → ((do put_byte 0 t; copy_at 1 h; write_port (1 + length h) p) s).0
      ≡ ok (t ∷ (h ++ port_bytes p))
filled_from_type t h p s room = ground (
  arith,
  splice_nil s.buf,
  put_next [] s.input s.output s.buf t (omega arith),
  copy_next (t ∷ []) s.input s.output s.buf h (omega arith),
  filled (t ∷ h) s.output s.input s.buf p (omega arith),
)

filled_domain :
    (n : ℕ) (h : Bytes) (p : ℕ) (s : Io)
    → 1 + 1 + length h + 2 ≤ length s.buf
    → ((do put_byte 0 3; put_byte 1 n; copy_at 2 h; write_port (1 + 1 + length h) p) s).0
      ≡ ok (3 ∷ n ∷ (h ++ port_bytes p))
filled_domain n h p s room = ground (
  arith,
  splice_nil s.buf,
  put_next [] s.input s.output s.buf 3 (omega arith),
  put_next (3 ∷ []) s.input s.output s.buf n (omega arith),
  copy_next (3 ∷ n ∷ []) s.input s.output s.buf h (omega arith),
  filled (3 ∷ n ∷ h) s.output s.input s.buf p (omega arith),
)

pub to4-length : (ip : Bytes) {ip4 : Bytes} → length ip ≡ 16 → to4 ip ≡ some ip4 → length ip4 ≡ 4
unfolding to4
to4-length ip h e = ground (arith, length-drop 12 ip)

-- The result on every branch, in the order of the checks: the address that the host and the port
-- stand for, or the error. A port is from 0 to 65535.
abbrev pub host_port_result : NetIp → Bytes → ℤ → ℕ → Outcome Bytes
host_port_result net h (negsuc n) room = err invalid_host_or_port
host_port_result net h (pos p) room =
    if length h == 0 || ltb 65535 p
    then err invalid_host_or_port
    else if is_none (net.parse_ip h) && ltb 255 (length h)
    then err domain_length_too_long
    else if ltb room (length (encode (address_of net h p)))
    then err short_buffer
    else ok (encode (address_of net h p))

module _ (net : NetIp) (lawful : IsNet net) (h : Bytes) (s : Io) where
  at_port :
      (p : ℕ)
      → (parse_address_from_host_port net h (pos p) s).0
        ≡ host_port_result net h (pos p) (length s.buf)
  unfolding parse_address_from_host_port write_address
  at_port p = elim (Option-cases (net.parse_ip h)) [
    | inl name ↦
        ground (arith, name, filled_domain (length h) h p s, length-append h (port_bytes p))
    | inr (ip, parsed) ↦
        let size : length ip ≡ 16 = lawful.parse_ip_length h ip parsed in
        elim (Option-cases (to4 ip)) [
          | inl v6 ↦
              ground (arith, parsed, v6, filled_from_type 4 ip p s, length-append ip (port_bytes p))
          | inr (ip4, v4) ↦ ground (
            arith,
            parsed,
            v4,
            filled_from_type 1 ip4 p s,
            length-append ip4 (port_bytes p),
            to4-length ip size v4,
          )
        ]
  ]

  -- The result of ParseAddressFromHostPort on every branch, a negative port among them: the wire
  -- format of the address that the host and the port stand for, or the error, in the order of the
  -- checks. Condition: net.ParseIP gives sixteen bytes.
  pub parse_address_from_host_port_lem :
      (p : ℤ) → (parse_address_from_host_port net h p s).0 ≡ host_port_result net h p (length s.buf)
  unfolding parse_address_from_host_port
  parse_address_from_host_port_lem (pos p) = at_port p
  parse_address_from_host_port_lem (negsuc n) = ground arith
