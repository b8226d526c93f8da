-- ===== src/Auth.antt =====
-- internal/usecase/auth_usecase.go.
pub mod Inputs
pub mod Setup
pub mod Register
pub mod Sessions
pub mod Requests
pub mod Revocation
pub mod Ledger
