-- ===== src/HaMqtt.antt =====
-- The publisher for Home Assistant: bridge/internal/hamqtt/publisher.go.
pub mod Topics
pub mod Entities
pub mod Payloads
pub mod Plans
pub mod Publish
