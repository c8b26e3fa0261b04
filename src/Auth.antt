-- ===== src/Auth.antt =====
-- internal/auth: the cache that stands before the lookup of API keys.
pub mod Lru
pub mod Keys
