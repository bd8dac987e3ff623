-- ===== src/Trie.antt =====
-- util/trie: the domain trie. `Defs` has its functions; a path is a list of labels, the last label
-- of the domain first.
pub mod Defs
pub mod Paths
pub mod Search
pub mod Complete
pub mod Examples
