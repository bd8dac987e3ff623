-- ===== src/Cache.antt =====
-- util/cache/cache.go: the LRU cache with expiration, over Go's container/list.
pub mod LinkedList
pub mod Defs
pub mod Spec
pub mod Index
pub mod Refinement
pub mod Writes
pub mod Cleanup
pub mod Reads
pub mod Tables
mod Examples
