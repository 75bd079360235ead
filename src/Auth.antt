-- ===== src/Auth.antt =====
-- Accounts and sessions: src/auth.
mod Store
pub use Store.*
pub mod Login
pub mod Refresh
pub mod Totp
pub mod TwoFactor
pub mod Register
pub mod OAuth
pub mod Recovery
mod Tests
