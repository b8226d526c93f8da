-- ===== src/Domain.antt =====
-- internal/domain: the entities, with the columns that the repositories read and write.
-- A *string or a NullString is an Option; an instant is its nanoseconds since the epoch.
pub mod Alerts
pub mod Claims
pub mod Pairing
pub mod Sessions
use datn_backend.Prelude.{ℕ, Bool, true, false, ◌*◌, Option, none, some}
use datn_backend.Text.{Text, utf8}

abbrev pub Time : Type 0
Time = ℕ

abbrev pub second : ℕ
second = 1_000_000_000

abbrev pub minute : ℕ
minute = 60 * second

abbrev pub hour : ℕ
hour = 60 * minute

-- auth_otp.go
abbrev pub purpose_register : Text
purpose_register = utf8 "register"

pub record AuthOtp : Type 0 where
  pub id : Text
  pub phone_number : Text
  pub purpose : Text
  pub otp_hash : Text
  pub expires_at : Time
  pub attempt_count : ℕ
  pub max_attempts : ℕ
  pub used_at : Option Time
  pub created_at : Time

abbrev pub is_some {ℓ} : {A : Type ℓ} → Option A → Bool
is_some none = false
is_some (some x) = true

unfoldable pub is_used : AuthOtp → Bool
is_used otp = is_some otp.used_at

-- user.go
pub record User : Type 0 where
  pub id : Text
  pub email : Option Text
  pub phone_number : Text
  pub full_name : Text
  pub password_hash : Text
  pub last_login_at : Option Time
  pub created_at : Time

-- refresh_token.go
pub record RefreshToken : Type 0 where
  pub id : Text
  pub user_id : Text
  pub token_hash : Text
  pub expires_at : Time
  pub revoked_at : Option Time
  pub created_at : Time
