-- ===== src/Auth.antt =====
-- Sign-in, sessions and account recovery (internal/auth).
pub mod Types
pub mod Accounts
pub mod Credentials
pub mod Service
pub mod Sessions
pub mod Recovery
pub mod Suspended
mod Tests
