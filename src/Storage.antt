-- ===== src/Storage.antt =====
-- crates/storage: the repositories, the cache and the rate limiter's storage.
pub mod InMemory
pub mod RateLimit
pub mod Postgres
