-- ===== src/Cache.antt =====
-- crates/zaphyl-core/src/cache.rs: the response cache. The children hold the caching policy, the
-- cache key, the bounded store, and the tier on disk with its file format.
pub mod Policy
pub mod Key
pub mod Store
pub mod Disk
