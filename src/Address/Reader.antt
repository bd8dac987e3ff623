-- ===== src/Address/Reader.antt =====
-- `ParseAddressFromReader` against the wire format.
use mini_ss.Common.{◌+◌, ◌≤◌, ◌≡◌, [], ◌∷◌, ◌++◌, arith, length, length-append}
use mini_ss.Common.Bytes.{Bytes}
use mini_ss.Stream.{ok, splice}
use mini_ss.Address.Defs.{parse_address_from_reader}
use mini_ss.Address.Wire.{Addr, ipv4, ipv6, domain, encode, IsAddr, max_address_buffer_size}
use mini_ss.Stream.Fill.{splice_nil, read_next, slice_seen, first_seen, second_seen}

-- Where the buffer can hold the longest address, an address at the front of the stream is read
-- whole, no byte behind it is consumed, and the buffer begins with the address.
pub parse_address_from_reader-encode :
    (x : Addr) (rest output b : Bytes)
    → IsAddr x
    → max_address_buffer_size ≤ length b
    → parse_address_from_reader (record { input = encode x ++ rest; output = output; buf = b })
      ≡ (ok (encode x), record { input = rest; output = output; buf = splice 0 (encode x) b })
unfolding parse_address_from_reader
parse_address_from_reader-encode (ipv4 ip p) rest output b h room = ground (
  arith,
  splice_nil b,
  read_next [] output b (omega arith) (1 ∷ []) ((ip ++ p) ++ rest) (omega arith),
  read_next (1 ∷ []) output b (omega arith) (ip ++ p) rest (omega (arith, length-append ip p)),
  length-append ip p,
  slice_seen (1 ∷ (ip ++ p)) output b (omega (arith, length-append ip p)) rest,
  first_seen 1 [] ((ip ++ p) ++ rest) output b (omega arith),
)
parse_address_from_reader-encode (ipv6 ip p) rest output b h room = ground (
  arith,
  splice_nil b,
  read_next [] output b (omega arith) (4 ∷ []) ((ip ++ p) ++ rest) (omega arith),
  read_next (4 ∷ []) output b (omega arith) (ip ++ p) rest (omega (arith, length-append ip p)),
  length-append ip p,
  slice_seen (4 ∷ (ip ++ p)) output b (omega (arith, length-append ip p)) rest,
  first_seen 4 [] ((ip ++ p) ++ rest) output b (omega arith),
)
parse_address_from_reader-encode (domain d p) rest output b h room =
    let tail : Bytes = (d ++ p) ++ rest in
    let size : length (d ++ p) ≡ length d + 2 = omega (arith, length-append d p) in
    ground (
      arith,
      splice_nil b,
      read_next [] output b (omega arith) (3 ∷ []) (length d ∷ tail) (omega arith),
      first_seen 3 [] (length d ∷ tail) output b (omega arith),
      read_next (3 ∷ []) output b (omega arith) (length d ∷ []) tail (omega arith),
      second_seen 3 (length d) [] tail output b (omega arith),
      read_next (3 ∷ length d ∷ []) output b (omega arith) (d ++ p) rest (omega arith),
      slice_seen (3 ∷ length d ∷ (d ++ p)) output b (omega arith) rest,
    )
