-- ===== src/Notifications.antt =====
-- src/manager-lib/notificationmanager.cpp: the notifications that are shown, and their timers.
pub mod State
pub mod Manager
pub mod Held
pub mod Accounting
pub mod Serving
pub mod Timers
pub mod Sticky
mod Tests
