-- ===== src/Aead.antt =====
-- ss/aead/stream_conn.go: the encrypted stream of Shadowsocks. `Defs` has the reader, the writer and
-- the connection that puts a salt in front; `RoundTrip` and
-- `Connection` say that the one reads what the other wrote.
pub mod Defs
pub mod RoundTrip
pub mod Connection
mod Examples
