-- ===== src/Tests.antt =====
-- Instances of the theorems at concrete inputs.
pub mod Environment
pub mod Auth
pub mod Inputs
pub mod Tokens
pub mod Sessions
pub mod Pairing
pub mod Mqtt
pub mod Devices
pub mod Http
pub mod Server
pub mod Alerts
pub mod Routes
