-- ===== src/Address.antt =====
-- address/address.go: the socks address codec. An address is the byte slice
-- type, host, port: type 1 an IPv4 host, type 4 an IPv6 host, type 3 a length and a domain name.
-- `Defs` has the functions, `Wire` the format; the other children what is proved of them.
pub mod Defs
pub mod Wire
pub mod Buffer
pub mod Reader
pub mod Safety
pub mod HostPort
pub mod RoundTrip
mod Examples
