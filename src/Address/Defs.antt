-- ===== src/Address/Defs.antt =====
-- The functions of address/address.go. What `net` does with the text of an IP address is a
-- parameter; `To4` is written out. An address's numbers are below 2 ^ 17, so no sum overflows.
use mini_ss.Common.{
  ℕ, ◌+◌, ◌*◌, ◌/◌, ◌%◌, ◌^◌, Bool, true, false, ◌&&◌, ◌||◌, ◌-◌, Option, none, some, [], ◌∷◌, leb,
  ltb, ◌==◌, length, take, drop, get_or, if◌then◌else◌,
}
use mini_ss.Common.Bytes.{Bytes}
use mini_ss.Stream.{
  short_buffer, addr_type_not_supported, domain_length_too_long, invalid_host_or_port, Outcome, ok,
  err, M, ◌>>=◌, ◌>>◌, fail, read_full, byte_at, slice, put_byte, copy_at, buf_length,
}

-- net.IPv4len and net.IPv6len
abbrev pub ipv4_len : ℕ
ipv4_len = 4

abbrev pub ipv6_len : ℕ
ipv6_len = 16

-- net.ParseIP, which gives sixteen bytes, and net.IP.String.
pub record NetIp : Type 0 where
  pub parse_ip : Bytes → Option Bytes
  pub print_ip : Bytes → Bytes

abbrev pub all_zero : Bytes → Bool
all_zero [] = true
all_zero (b ∷ bs) = b == 0 && all_zero bs

-- net.IP.To4 of sixteen bytes: the last four, behind ten zeros and two 0xff.
unfoldable pub to4 : Bytes → Option Bytes
to4 ip =
    if all_zero (take 10 ip) && get_or ip 10 0 == 0xff && get_or ip 11 0 == 0xff
    then some (drop 12 ip)
    else none

-- The rest of `ParseAddressFromReader` behind the type byte.
unfoldable pub read_address : ℕ → M Bytes
read_address t =
    if t == 3
    then (do read_full 1 1; n ← byte_at 1; read_full 2 (n + 2); slice 0 (1 + 1 + n + 2))
    else if t == 1
    then (do read_full 1 (ipv4_len + 2); slice 0 (1 + ipv4_len + 2))
    else if t == 4
    then (do read_full 1 (ipv6_len + 2); slice 0 (1 + ipv6_len + 2))
    else fail addr_type_not_supported

unfoldable pub parse_address_from_reader : M Bytes
unfolding read_address
parse_address_from_reader = do
  n ← buf_length
  if ltb n 1 then fail short_buffer else (do read_full 0 1; t ← byte_at 0; read_address t)

-- Its last lines: the length check and `b[:n]`.
unfoldable pub cut : ℕ → Bytes → Outcome Bytes
cut n b = if ltb (length b) n then err short_buffer else ok (take n b)

unfoldable pub parse_address_from_buffer : Bytes → Outcome Bytes
parse_address_from_buffer b =
    if ltb (length b) 1
    then err short_buffer
    else if get_or b 0 0 == 3
    then (if ltb (length b) 2 then err short_buffer else cut (1 + 1 + get_or b 1 0 + 2) b)
    else if get_or b 0 0 == 1
    then cut (1 + ipv4_len + 2) b
    else if get_or b 0 0 == 4
    then cut (1 + ipv6_len + 2) b
    else err addr_type_not_supported

-- The last lines of `ParseAddressFromHostPort`: the port, high byte first, at `i`.
unfoldable pub write_port : ℕ → ℕ → M Bytes
write_port i port = do
  put_byte i (port / 2 ^ 8 % 256)
  put_byte (i + 1) (port % 256)
  slice 0 (i + 2)

-- An `int`: `pos n` is n, and `negsuc n` is - (n + 1).
pub data ℤ : Type 0 where
  pos : ℕ → ℤ
  negsuc : ℕ → ℤ

abbrev pub ltz : ℤ → ℤ → Bool
ltz (pos m) (pos n) = ltb m n
ltz (pos m) (negsuc n) = false
ltz (negsuc m) (pos n) = true
ltz (negsuc m) (negsuc n) = ltb n m

-- The 64 bits of an `int`.
abbrev pub bits64 : ℤ → ℕ
bits64 (pos n) = n
bits64 (negsuc n) = 2 ^ 64 - (n + 1)

-- `ParseAddressFromHostPort` behind its first check, where the bits of the port are these.
unfoldable pub write_address : NetIp → Bytes → ℕ → M Bytes
unfolding to4
write_address net host port = elim (net.parse_ip host) [
  | some ip ↦ elim (to4 ip) [
    | some ip4 ↦ do
      n ← buf_length
      if ltb n (1 + ipv4_len + 2)
          then fail short_buffer
          else (do put_byte 0 1; copy_at 1 ip4; write_port (1 + ipv4_len) port)
    | none ↦ do
      n ← buf_length
      if ltb n (1 + ipv6_len + 2)
          then fail short_buffer
          else (do put_byte 0 4; copy_at 1 ip; write_port (1 + ipv6_len) port)
  ]
  | none ↦ if ltb 255 (length host) then fail domain_length_too_long else (do
    n ← buf_length
    if ltb n (1 + 1 + length host + 2) then fail short_buffer else (do
      put_byte 0 3
      put_byte 1 (length host % 256)
      copy_at 2 host
      write_port (1 + 1 + length host) port))
]

unfoldable pub parse_address_from_host_port : NetIp → Bytes → ℤ → M Bytes
unfolding write_address
parse_address_from_host_port net host port =
    if length host == 0 || ltz port (pos 0) || ltz (pos 65535) port
    then fail invalid_host_or_port
    else write_address net host (bits64 port)

-- Address.Host. An address whose host does not fit has the empty host.
unfoldable pub host : NetIp → Bytes → Bytes
host net a =
    if ltb (length a) 1
    then []
    else if get_or a 0 0 == 3
    then (if ltb 1 (length a) && leb (2 + get_or a 1 0) (length a)
        then take (get_or a 1 0) (drop 2 a)
        else [])
    else if get_or a 0 0 == 1
    then (if leb (1 + ipv4_len) (length a) then net.print_ip (take ipv4_len (drop 1 a)) else [])
    else if get_or a 0 0 == 4
    then (if leb (1 + ipv6_len) (length a) then net.print_ip (take ipv6_len (drop 1 a)) else [])
    else []

-- The two bytes at `i`, high byte first: `(int(a[i]) << 8) | int(a[i+1])` of bytes is this sum.
abbrev pub be16_at : Bytes → ℕ → ℕ
be16_at a i = get_or a i 0 * 2 ^ 8 + get_or a (i + 1) 0

-- Address.Port. An address whose port does not fit has port 0.
unfoldable pub port : Bytes → ℕ
port a =
    if ltb (length a) 1
    then 0
    else if get_or a 0 0 == 3
    then (if ltb 1 (length a) && leb (4 + get_or a 1 0) (length a)
        then be16_at a (2 + get_or a 1 0)
        else 0)
    else if get_or a 0 0 == 1
    then (if leb (3 + ipv4_len) (length a) then be16_at a (1 + ipv4_len) else 0)
    else if get_or a 0 0 == 4
    then (if leb (3 + ipv6_len) (length a) then be16_at a (1 + ipv6_len) else 0)
    else 0
