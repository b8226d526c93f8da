-- ===== src/Token.antt =====
-- internal/token/service.go.
pub mod Issuing
use datn_backend.Prelude.{
  ℕ, ◌+◌, ◌*◌, ◌/◌, Bool, not, ◌||◌, Option, none, some, [], ◌∷◌, if◌then◌else◌,
}
use datn_backend.Text.{Text, text_eq, is_empty}
use datn_backend.Text.Base64.{encode}
use datn_backend.Domain.{Time, second}
use datn_backend.Domain.Claims.{AccessClaims, access, register}
use datn_backend.Errors.{Error, invalid_token, sign_failed, Result, ok, err}
use datn_backend.World.{World, Env}
use datn_backend.Action.{Action, pure, raise, lift, from_option, now, new_uuid, rand_read, ◌>>=◌}

pub record Service : Type 0 where
  pub secret : Text
  pub issuer : Text
  pub audience : Text
  pub access_ttl : ℕ

pub record AccessToken : Type 0 where
  pub token : Text
  pub expires_at : Time

-- jwt.NewNumericDate: whole seconds.
abbrev pub numeric_date : Time → Time
numeric_date t = t / second * second

abbrev pub claims_of : Service → Text → Text → Time → Text → AccessClaims
claims_of s subject token_type at id = record {
  token_type = token_type;
  issuer = s.issuer;
  subject = subject;
  audience = s.audience ∷ [];
  expires_at = some (numeric_date (at + s.access_ttl));
  not_before = some (numeric_date at);
  issued_at = some (numeric_date at);
  id = id;
}

-- err != nil || !parsed.Valid || claims.TokenType != tokenType || claims.Subject == ""
abbrev check_claims : Text → Option AccessClaims → Result AccessClaims
check_claims token_type none = err invalid_token
check_claims token_type (some claims) =
    if not (text_eq claims.token_type token_type) || is_empty claims.subject
    then err invalid_token
    else ok claims

module _ (env : Env) where
  unfoldable pub issue_token : Service → Text → Text → Action AccessToken
  unfolding now new_uuid
  issue_token s subject token_type = do
    at ← now env
    id ← new_uuid env
    signed ←
        lift
          (from_option sign_failed (env.jwt_sign s.secret (claims_of s subject token_type at id)))
    pure (record { token = signed; expires_at = at + s.access_ttl })

  unfoldable pub issue_access_token : Service → Text → Action AccessToken
  unfolding issue_token
  issue_access_token s user_id = issue_token s user_id access

  unfoldable pub issue_register_token : Service → Text → Action AccessToken
  unfolding issue_token
  issue_register_token s phone_number = issue_token s phone_number register

  -- The parser compares the times of the claims with the clock.
  unfoldable pub verify_token : Service → Text → Text → Action AccessClaims
  unfolding now
  verify_token s raw token_type = do
    at ← now env
    lift (check_claims token_type (env.jwt_parse s.secret s.issuer s.audience at raw))

  unfoldable pub verify_access_token : Service → Text → Action AccessClaims
  unfolding verify_token
  verify_access_token s raw = verify_token s raw access

  unfoldable pub verify_register_token : Service → Text → Action AccessClaims
  unfolding verify_token
  verify_register_token s raw = verify_token s raw register

  unfoldable pub generate_refresh_token : Action Text
  unfolding rand_read
  generate_refresh_token = do bytes ← rand_read env 32; pure (encode bytes)

  unfoldable pub hash_refresh_token : Text → Text
  hash_refresh_token refresh_token = env.sha256_hex refresh_token
