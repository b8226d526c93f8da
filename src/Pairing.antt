-- ===== src/Pairing.antt =====
-- internal/usecase/pairing_usecase.go.
pub mod Codes
pub mod Start
pub mod Status
pub mod Agents
pub mod Requests
pub mod Credentials
pub mod Confirmations
pub mod Devices
pub mod Ownership
