-- ===== src/Resolver/Pool.antt =====
-- resolver/pool.go: the pool of fake IP addresses. An address is an IPv4 address as a uint32, so
-- `intToIP` and `ipToInt` are the identity on numbers below 2 ^ 32; `Defs` has the functions.
pub mod Defs
pub mod Flags
pub mod Prefixes
pub mod Laws
pub mod Allocation
mod Examples
