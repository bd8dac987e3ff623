-- ===== src/Address/Wire.antt =====
-- The wire format that address/address.go reads and writes, stated by itself: what an address is,
-- and its bytes.
use mini_ss.Common.{ℕ, ◌≤◌, ◌<◌, ◌≡◌, ◌∷◌, ◌++◌, length, arith, length-append}
use mini_ss.Common.Bytes.{Bytes}

-- A host of each type, with the two bytes of the port.
pub data Addr : Type 0 where
  ipv4 : Bytes → Bytes → Addr
  ipv6 : Bytes → Bytes → Addr
  domain : Bytes → Bytes → Addr

abbrev pub encode : Addr → Bytes
encode (ipv4 ip p) = 1 ∷ (ip ++ p)
encode (ipv6 ip p) = 4 ∷ (ip ++ p)
encode (domain d p) = 3 ∷ length d ∷ (d ++ p)

-- The lengths that the format fixes; a domain's length fits in its byte.
abbrev pub IsAddr : Addr → Type 0
IsAddr (ipv4 ip p) = (length ip ≡ 4) × (length p ≡ 2)
IsAddr (ipv6 ip p) = (length ip ≡ 16) × (length p ≡ 2)
IsAddr (domain d p) = (length d < 256) × (length p ≡ 2)

-- The longest address is the longest domain: bufferpool.MaxAddressBufferSize.
abbrev pub max_address_buffer_size : ℕ
max_address_buffer_size = 259

pub length-encode-le : (x : Addr) → IsAddr x → length (encode x) ≤ max_address_buffer_size
length-encode-le (ipv4 ip p) h = omega (arith, length-append ip p)
length-encode-le (ipv6 ip p) h = omega (arith, length-append ip p)
length-encode-le (domain d p) h = omega (arith, length-append d p)
