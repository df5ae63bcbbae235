-- ===== src/Tests.antt =====
-- The theorems at concrete inputs, and runs of the model.
pub mod Sia
pub mod State
pub mod App
pub mod Catalog
pub mod Notifications
pub mod Jeedom
pub mod HaMqtt
pub mod Values
