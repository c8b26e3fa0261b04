-- ===== src/Admin.antt =====
-- internal/adminauth: the console's accounts. The session store is an interface (Admin/Store), which
-- the in-memory store of the package implements (Admin/Memory); the sessions, the login and the roles
-- are written against it. Clocks are natural numbers of nanoseconds and stand still within one call.
pub mod Store
pub mod Memory
pub mod Roles
pub mod Session
pub mod Login
pub mod Gate
mod Samples
mod Examples
