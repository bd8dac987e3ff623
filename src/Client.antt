-- ===== src/Client.antt =====
-- ss/ss_client.go: what the client sets up from its options.
pub mod Defs
pub mod Proxies
pub mod Startup
pub mod Tunnels
pub mod Examples
pub mod Listeners
