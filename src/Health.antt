-- ===== src/Health.antt =====
-- internal/health: what is known of the targets.
pub mod Stats
pub mod Tracker
