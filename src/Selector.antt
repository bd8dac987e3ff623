-- ===== src/Selector.antt =====
-- selector/selector.go: which relayer a proxy's name stands for.
pub mod Defs
pub mod Laws
pub mod Examples
