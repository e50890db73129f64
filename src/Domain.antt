-- ===== src/Domain.antt =====
-- crates/domain: the links and their repository's contract, the sliding window of hits, the token
-- bucket.
pub mod Link
pub mod RateLimit
pub mod Stats
