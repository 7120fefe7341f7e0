-- ===== src/Plans.antt =====
-- Plans: their creation, recurring series, join requests and invites (internal/plans).
pub mod Types
pub mod Recurrence
pub mod Series
pub mod Requests
pub mod Hosting
pub mod Creation
pub mod Soundness
pub mod Ending
pub mod Occurrences
pub mod Extension
mod Tests
