-- ===== src/Domain/Claims.antt =====
-- AccessClaims of internal/token/service.go: the private claim "typ" and the registered claims.
use datn_backend.Prelude.{ℕ, Option, List}
use datn_backend.Text.{Text, utf8}

-- TokenTypeAccess and TokenTypeRegister.
abbrev pub access : Text
access = utf8 "access"

abbrev pub register : Text
register = utf8 "register"

pub record AccessClaims : Type 0 where
  pub token_type : Text
  pub issuer : Text
  pub subject : Text
  pub audience : List Text
  -- A date is none where the token has no such claim.
  pub expires_at : Option ℕ
  pub not_before : Option ℕ
  pub issued_at : Option ℕ
  pub id : Text
