-- ===== src/Sse.antt =====
-- internal/sse: server-sent events, read and written.
pub mod Reader
pub mod Writer
mod Examples
