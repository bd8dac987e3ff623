-- ===== src/Socks.antt =====
-- ss/auth.go and the SOCKS5 handshake of ss/socks.go. `Auth` has the credentials, `Defs` the
-- negotiation; the other children what is proved of them.
pub mod Auth
pub mod Defs
pub mod Safety
pub mod Request
pub mod Replies
pub mod Destinations
mod RequestExamples
pub mod Accepts
pub mod Refuses
pub mod Examples
