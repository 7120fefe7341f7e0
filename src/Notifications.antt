-- ===== src/Notifications.antt =====
-- In-app notifications and their delivery by e-mail and push (internal/notifications).
pub mod Types
pub mod Emit
pub mod Inbox
pub mod Dispatch
pub mod Settings
pub mod Unread
pub mod History
pub mod Order
pub mod Limit
pub mod Pages
pub mod Delivery
mod Tests
