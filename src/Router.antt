-- ===== src/Router.antt =====
-- internal/router.
pub mod Breaker
pub mod Capabilities
pub mod Route
pub mod Execute
pub mod Hedge
