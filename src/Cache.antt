-- ===== src/Cache.antt =====
-- pkg/cache: the in-memory cache, and the two tiers of memory and Badger.
pub mod Lru
pub mod Memory
pub mod Disk
pub mod Badger
pub mod Store
