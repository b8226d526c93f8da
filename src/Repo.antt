-- ===== src/Repo.antt =====
-- internal/repo/postgres: each method as the statements that it runs on the tables.
-- A UUID is a text in its canonical form.
pub mod Keys
pub mod AuthOtps
pub mod Users
pub mod RefreshTokens
pub mod Registration
pub mod Alerts
pub mod PcAgents
pub mod PairingSessions
pub mod MobileDevices
