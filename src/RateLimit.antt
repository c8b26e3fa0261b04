-- ===== src/RateLimit.antt =====
-- internal/ratelimit: token buckets in Redis, and the pipeline's stage that charges them.
pub mod Buckets
pub mod Stage
mod Examples
