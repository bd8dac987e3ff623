-- ===== src/Ordmap.antt =====
-- util/ordmap/map.go: a map that remembers the order of insertion.
pub mod Defs
pub mod Laws
pub mod Examples
