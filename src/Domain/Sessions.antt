-- ===== src/Domain/Sessions.antt =====
-- internal/domain/auth.go: what the authentication use cases return.
use datn_backend.Prelude.{ℕ}
use datn_backend.Prelude.Int.{ℤ, sub_div}
use datn_backend.Text.{Text, utf8}

-- int64(time.Until(expiresAt).Seconds())
abbrev pub seconds_from : ℕ → ℕ → ℤ
seconds_from at expires_at = sub_div expires_at at 1_000_000_000

abbrev pub bearer : Text
bearer = utf8 "Bearer"

pub record AuthTokens : Type 0 where
  pub access_token : Text
  pub refresh_token : Text
  pub token_type : Text
  pub expires_at : ℕ
  pub expires_in : ℤ

pub record RegisterOtpChallenge : Type 0 where
  pub expires_at : ℕ
  pub dev_otp : Text

pub record RegisterOtpVerification : Type 0 where
  pub access_token : Text
  pub token_type : Text
  pub expires_at : ℕ
  pub expires_in : ℤ
