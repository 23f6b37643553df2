-- ===== src/ReadTree.antt =====
-- The read tree: a search tree with an LRU list, the cache in front of the LSM levels.
pub mod Defs
pub mod Search
pub mod Lru
pub mod Invariant
pub mod Operations
pub mod Removal
pub mod Clear
