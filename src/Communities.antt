-- ===== src/Communities.antt =====
-- Communities, their members and the requests to join them (internal/communities).
pub mod Types
pub mod Members
pub mod Service
pub mod Owners
pub mod Admission
mod Tests
