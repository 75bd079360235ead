-- ===== src/Guards.antt =====
-- The guards of the HTTP routes: src/common/guards.
mod Request
pub use Request.*
pub mod Permissions
pub mod Roles
mod Tests
