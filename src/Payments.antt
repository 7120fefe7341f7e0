-- ===== src/Payments.antt =====
-- Orders, captures, refunds, coupons and credits (internal/payments).
pub mod Types
pub mod Refunds
pub mod Capture
pub mod Credits
pub mod Settlement
mod Tests
