-- ===== src/Connections.antt =====
-- Connections between users, and groups of people who met (internal/connections).
pub mod Types
pub mod Requests
pub mod Methods
pub mod MeetAgain
pub mod Pairs
pub mod History
pub mod Rows
pub mod Bonds
pub mod Refused
pub mod Groups
mod Tests
