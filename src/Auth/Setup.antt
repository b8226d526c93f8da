-- ===== src/Auth/Setup.antt =====
-- The configuration of the use case, and the checks that its methods share.
use datn_backend.Prelude.{ℕ, [], none, ◌*◌, ◌==◌, if◌then◌else◌}
use datn_backend.Text.{Text}
use datn_backend.Domain.{Time, User, RefreshToken, minute, hour}
use datn_backend.Domain.Sessions.{AuthTokens, seconds_from, bearer}
use datn_backend.Errors.{Error, repo, RepoError, Result, ok, err}
use datn_backend.World.{Env}
use datn_backend.Action.{Action, pure, raise, now, ◌>>=◌}
use datn_backend.Token.{Service, AccessToken}

abbrev pub register_otp_ttl : ℕ
register_otp_ttl = 5 * minute

abbrev pub register_otp_max_attempts : ℕ
register_otp_max_attempts = 5

pub record AuthUseCase : Type 0 where
  pub tokens : Service
  pub refresh_token_ttl : ℕ

pub record AuthSession : Type 0 where
  pub user : User
  pub tokens : AuthTokens

-- A refresh TTL of 0 means thirty days.
unfoldable pub new_auth_use_case : Service → ℕ → AuthUseCase
new_auth_use_case service refresh_token_ttl = record {
  tokens = service;
  refresh_token_ttl = if refresh_token_ttl == 0 then 30 * 24 * hour else refresh_token_ttl;
}

-- The domain.RefreshToken of a new token.
abbrev pub new_refresh_token : Text → Text → Time → RefreshToken
new_refresh_token user_id token_hash expires_at = record {
  id = [];
  user_id = user_id;
  token_hash = token_hash;
  expires_at = expires_at;
  revoked_at = none;
  created_at = 0;
}

-- if err != nil && !errors.Is(err, repo.ErrUserNotFound) { return nil, err }
-- if existing != nil { return nil, e }
abbrev pub expect_no_user : Error → Result User → Action (Unit {0})
expect_no_user e (ok user) = raise e
expect_no_user e (err (repo RepoError.user_not_found)) = pure tt
expect_no_user e (err other) = raise other

-- The domain.AuthTokens of an access token and a refresh token.
unfoldable pub bearer_tokens : Env → AccessToken → Text → Action AuthTokens
unfolding now
bearer_tokens env access_token refresh_token = do
  at ← now env
  pure (record {
    access_token = access_token.token;
    refresh_token = refresh_token;
    token_type = bearer;
    expires_at = access_token.expires_at;
    expires_in = seconds_from at access_token.expires_at;
  })
