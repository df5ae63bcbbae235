-- ===== src/Sia.antt =====
-- The SIA DC-09 receiver: bridge/internal/sia.
pub mod Crc
pub mod Header
pub mod Errors
pub mod Frame
pub mod Crypto
pub mod Content
pub mod Catalog
pub mod Timestamp
pub mod Parser
pub mod Response
