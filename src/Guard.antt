-- ===== src/Guard.antt =====
-- internal/guard: redaction of personal data, and its restoration in answers.
pub mod Restorer
pub mod Redact
pub mod Detect
pub mod Samples
mod Examples
