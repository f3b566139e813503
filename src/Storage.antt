-- ===== src/Storage.antt =====
-- internal/storage: the parts of the store that keep state of their own.
pub mod Codec
pub mod Filename
pub mod Lru
pub mod MemoryCache
pub mod Merger
pub mod Quality
pub mod Resting
pub mod Watchdog
pub mod WriteQueue
