-- ===== src/Address/Examples.antt =====
-- Runs of the address codec, and its theorems at concrete inputs.
use mini_ss.Common.{
  ◌≡◌, ◌≢◌, refl, [], ◌∷◌, ◌++◌, arith, length, none, some, replicate, if◌then◌else◌,
}
use mini_ss.Common.Bytes.{Bytes, codes, bytes_beq}
use mini_ss.Stream.{
  invalid_host_or_port, ok, err, panics, Io, read_full, slice, byte_at, splice, put_byte, copy_at,
  unexpected_eof,
}
use mini_ss.Stream.Safe.{IsReady}
use mini_ss.Address.Defs.{
  NetIp, cut, to4, write_port, parse_address_from_reader, parse_address_from_buffer,
  parse_address_from_host_port, write_address, pos, negsuc, host, port,
}
use mini_ss.Address.Wire.{Addr, domain, encode, max_address_buffer_size}
use mini_ss.Address.Buffer.{Parsed, parse_address_from_buffer_lem}
use mini_ss.Address.Reader.{parse_address_from_reader-encode}
use mini_ss.Address.Safety.{parse_address_from_reader-ne-panics}
use mini_ss.Address.HostPort.{IsNet, host_port_result, parse_address_from_host_port_lem}
use mini_ss.Address.RoundTrip.{canonical_host, parse_address_from_host_port-host-port}

program : Unit {0}
unfolding cut to4 write_port read_full slice byte_at splice put_byte copy_at
    parse_address_from_reader parse_address_from_buffer parse_address_from_host_port write_address
    host port bytes_beq
program = tt

-- An `net` that knows one address, 10.0.0.1.
abbrev ten : Bytes
ten = 0 ∷ 0 ∷ 0 ∷ 0 ∷ 0 ∷ 0 ∷ 0 ∷ 0 ∷ 0 ∷ 0 ∷ 0xff ∷ 0xff ∷ 10 ∷ 0 ∷ 0 ∷ 1 ∷ []

abbrev one_ip : NetIp
one_ip = record {
  parse_ip = λ h. if bytes_beq h (codes "10.0.0.1") then some ten else none;
  print_ip = λ ip. codes "10.0.0.1";
}

one_ip-IsNet : IsNet one_ip
one_ip-IsNet = record { parse_ip_length = λ h ip e. ground arith }

abbrev site : Addr
site = domain (codes "a.io") (1 ∷ 187 ∷ [])

abbrev room : Bytes
room = replicate 259 0

abbrev fresh : Bytes → Io
fresh xs = record { input = xs; output = []; buf = room }

truncated : (parse_address_from_reader (fresh (3 ∷ 9 ∷ 97 ∷ []))).0 ≡ err unexpected_eof
unfolding program
truncated = refl

written :
    (parse_address_from_host_port one_ip (codes "10.0.0.1") (pos 443) (fresh [])).0
    ≡ ok (1 ∷ 10 ∷ 0 ∷ 0 ∷ 1 ∷ 1 ∷ 187 ∷ [])
unfolding program
written = refl

abbrev in_buffer : Bytes
in_buffer = 1 ∷ 10 ∷ 0 ∷ 0 ∷ 1 ∷ 1 ∷ 187 ∷ 9 ∷ []

parse_address_from_buffer_example : Parsed in_buffer (parse_address_from_buffer in_buffer)
parse_address_from_buffer_example = parse_address_from_buffer_lem in_buffer (omega arith)

reader-encode_example :
    parse_address_from_reader (record { input = encode site ++ 7 ∷ []; output = []; buf = room })
    ≡ (ok (encode site), record { input = 7 ∷ []; output = []; buf = splice 0 (encode site) room })
reader-encode_example =
    parse_address_from_reader-encode site (7 ∷ []) [] room (omega arith) (omega arith)

room_bytes : IsReady max_address_buffer_size (fresh (encode site))
room_bytes = record { room = omega arith; input_bytes = omega arith; buf_bytes = omega arith }

reader-ne-panics_example : (parse_address_from_reader (fresh (encode site))).0 ≢ panics
reader-ne-panics_example = parse_address_from_reader-ne-panics (fresh (encode site)) room_bytes

host_port_example :
    (parse_address_from_host_port one_ip (codes "a.io") (pos 443) (fresh [])).0
    ≡ host_port_result one_ip (codes "a.io") (pos 443) (length room)
host_port_example =
    parse_address_from_host_port_lem one_ip one_ip-IsNet (codes "a.io") (fresh []) (pos 443)

refused_negative :
    (parse_address_from_host_port one_ip (codes "a.io") (negsuc 999) (fresh [])).0
    ≡ err invalid_host_or_port
unfolding parse_address_from_host_port
refused_negative = refl

round_trip_example :
    (pos (port (encode site)) ≡ pos 443)
    × (host one_ip (encode site) ≡ canonical_host one_ip (codes "a.io"))
unfolding program
round_trip_example =
    parse_address_from_host_port-host-port one_ip (codes "a.io") (pos 443) (fresh []) one_ip-IsNet
      refl
