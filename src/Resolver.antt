-- ===== src/Resolver.antt =====
-- resolver/: the fake IP pool and the resolver on top of it.
pub mod Pool
pub mod FakeIp
