-- ===== src/Storage.antt =====
-- internal/storage: the key encoding and the cache.
pub mod Cache
pub mod KeyEncode
pub mod Engine
