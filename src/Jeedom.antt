-- ===== src/Jeedom.antt =====
-- The Jeedom side: bridge/internal/jeedom.
pub mod Runes
pub mod Utf8
pub mod Slug
pub mod Keys
pub mod Electrical
pub mod Translation
pub mod Parser
pub mod Contract
pub mod Mapping
pub mod Control
pub mod Values
