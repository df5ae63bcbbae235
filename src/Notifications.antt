-- ===== src/Notifications.antt =====
-- The notifications: bridge/internal/notifications.
pub mod Slug
pub mod Config
pub mod Rules
pub mod Manager
pub mod Observe
