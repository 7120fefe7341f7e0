-- ===== src/Bookings.antt =====
-- Bookings, seat holds and the waitlist (internal/bookings).
pub mod Types
pub mod Create
pub mod Waitlist
pub mod Lifecycle
pub mod History
pub mod Outcomes
pub mod Cancellation
pub mod Attendance
pub mod Access
pub mod Quote
pub mod Pass
pub mod Service
pub mod Confirmation
pub mod Seats
pub mod Tests
