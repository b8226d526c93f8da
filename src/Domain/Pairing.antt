-- ===== src/Domain/Pairing.antt =====
-- internal/domain: pairing_session.go, pc_agent.go and mobile_device.go.
-- The status constants are data types: every write takes one of them, and the CHECK constraints
-- of internal/database/migrations allow no other.
use datn_backend.Prelude.{ℕ, Bool, true, false, Option}
use datn_backend.Text.{Text}

pub data PairingStatus : Type 0 where
  pending confirmed expired cancelled : PairingStatus

abbrev pub is_pending : PairingStatus → Bool
is_pending pending = true
is_pending _ = false

abbrev pub is_confirmed : PairingStatus → Bool
is_confirmed confirmed = true
is_confirmed _ = false

pub record PairingSession : Type 0 where
  pub id : Text
  pub device_code : Text
  pub requested_pc_agent_id : Option Text
  pub device_name : Text
  pub os_type : Text
  pub status : PairingStatus
  pub expires_at : ℕ
  pub confirmed_by_user_id : Option Text
  pub pc_agent_id : Option Text
  pub confirmed_at : Option ℕ
  pub created_at : ℕ

pub data AgentStatus : Type 0 where
  online offline : AgentStatus

pub data ProtectionStatus : Type 0 where
  enabled disabled : ProtectionStatus

pub record PcAgent : Type 0 where
  pub id : Text
  pub user_id : Text
  pub device_name : Text
  pub os_type : Text
  pub agent_secret_hash : Option Text
  pub status : AgentStatus
  pub protection_status : ProtectionStatus
  pub last_seen_at : Option ℕ
  pub created_at : ℕ

pub record MobileDevice : Type 0 where
  pub id : Text
  pub user_id : Text
  pub fcm_token : Text
  pub platform : Text
