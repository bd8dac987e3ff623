-- ===== src/Resolver/FakeIp.antt =====
-- resolver/fakeip.go: the resolver that answers a query with an address of the pool. `Defs` has its
-- functions, `Ledger` says which addresses its records hold.
pub mod Defs
pub mod Ledger
pub mod Finds
pub mod Cleaning
pub mod Records
pub mod Queries
pub mod Answers
pub mod Start
mod Examples
