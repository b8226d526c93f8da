-- ===== src/Auth/Sessions.antt =====
-- Login, Refresh, Logout, LogoutAll, LinkEmail and issueSession.
pub mod Rotation
use datn_backend.Prelude.{
  ℕ, ◌+◌, Bool, true, false, not, ◌||◌, ◌&&◌, Option, none, some, ltb, if◌then◌else◌,
}
use datn_backend.Text.{Text, trim_space, is_empty, text_eq}
use datn_backend.Domain.{Time, User, RefreshToken, is_some}
use datn_backend.Domain.Sessions.{AuthTokens}
use datn_backend.Errors.{Error, usecase, repo, UsecaseError, RepoError, Result, ok, err}
use datn_backend.World.{World, Env}
use datn_backend.Action.{Action, pure, raise, lift, guard, inspect, translate, now, ◌>>=◌, ◌>>◌}
use datn_backend.Repo.Users
use datn_backend.Repo.RefreshTokens
use datn_backend.Token.{
  Service, AccessToken, issue_access_token, generate_refresh_token, hash_refresh_token,
}
use datn_backend.Auth.Inputs.{normalize_phone_number, normalize_email}
use datn_backend.Auth.Setup.{AuthUseCase, AuthSession, bearer_tokens, new_refresh_token}

abbrev pub or_invalid_credentials : Error → Error
or_invalid_credentials (repo RepoError.user_not_found) = usecase UsecaseError.invalid_credentials
or_invalid_credentials e = e

abbrev pub or_invalid_refresh_token : Error → Error
or_invalid_refresh_token (repo RepoError.refresh_token_not_found) =
    usecase UsecaseError.invalid_refresh_token
or_invalid_refresh_token e = e

-- The user of a refresh token is gone.
abbrev pub or_invalid_refresh_user : Error → Error
or_invalid_refresh_user (repo RepoError.user_not_found) = usecase UsecaseError.invalid_refresh_token
or_invalid_refresh_user e = e

-- The user who has the e-mail address, if any, is `user_id`.
abbrev pub expect_no_other : Text → Result User → Action (Unit {0})
expect_no_other user_id (ok user) =
    guard (text_eq user.id user_id) (usecase UsecaseError.email_already_exists)
expect_no_other user_id (err (repo RepoError.user_not_found)) = pure tt
expect_no_other user_id (err other) = raise other

module _ (env : Env) where
  unfoldable pub issue_session : AuthUseCase → User → Action AuthSession
  unfolding issue_access_token generate_refresh_token hash_refresh_token now RefreshTokens.create
      bearer_tokens
  issue_session uc user = do
    access_token ← issue_access_token env uc.tokens user.id
    refresh_token ← generate_refresh_token env
    at ← now env
    RefreshTokens.create env (
        new_refresh_token user.id (hash_refresh_token env refresh_token)
          (at + uc.refresh_token_ttl))
    tokens ← bearer_tokens env access_token refresh_token
    pure (record { user = user; tokens = tokens })

  unfoldable pub login : AuthUseCase → Text → Text → Action AuthSession
  unfolding Users.find_by_phone_number issue_session
  login uc phone_input password = do
    phone_number ← lift (normalize_phone_number phone_input)
    guard (not (is_empty (trim_space password))) (usecase UsecaseError.invalid_input)
    user ← translate or_invalid_credentials (Users.find_by_phone_number env phone_number)
    guard (env.bcrypt_compare user.password_hash password)
        (usecase UsecaseError.invalid_credentials)
    issue_session uc user

  -- From the stored token on.
  unfoldable pub rotate : AuthUseCase → Text → RefreshToken → Action AuthTokens
  unfolding now Users.find_by_id issue_access_token generate_refresh_token hash_refresh_token
      bearer_tokens
  rotate uc token_hash stored = do
    guard (not (is_some stored.revoked_at)) (usecase UsecaseError.refresh_token_revoked)
    at ← now env
    guard (not (ltb stored.expires_at at)) (usecase UsecaseError.refresh_token_expired)
    translate or_invalid_refresh_user (Users.find_by_id env stored.user_id)
    access_token ← issue_access_token env uc.tokens stored.user_id
    next_refresh_token ← generate_refresh_token env
    at' ← now env
    translate or_invalid_refresh_token (
        RefreshTokens.replace env token_hash (
          new_refresh_token stored.user_id (hash_refresh_token env next_refresh_token)
            (at' + uc.refresh_token_ttl)))
    bearer_tokens env access_token next_refresh_token

  unfoldable pub refresh : AuthUseCase → Text → Action AuthTokens
  unfolding hash_refresh_token RefreshTokens.find_by_hash
  refresh uc input = do
    let refresh_token = trim_space input
    guard (not (is_empty refresh_token)) (usecase UsecaseError.invalid_input)
    let token_hash = hash_refresh_token env refresh_token
    stored ← translate or_invalid_refresh_token (RefreshTokens.find_by_hash env token_hash)
    rotate uc token_hash stored

  unfoldable pub logout : Text → Action (Unit {0})
  unfolding hash_refresh_token RefreshTokens.revoke_by_hash
  logout input = do
    let refresh_token = trim_space input
    guard (not (is_empty refresh_token)) (usecase UsecaseError.invalid_input)
    translate or_invalid_refresh_token
        (RefreshTokens.revoke_by_hash env (hash_refresh_token env refresh_token))

  unfoldable pub logout_all : Text → Action (Unit {0})
  unfolding RefreshTokens.revoke_all_by_user_id
  logout_all user_input = do
    let user_id = trim_space user_input
    guard (not (is_empty user_id)) (usecase UsecaseError.invalid_input)
    RefreshTokens.revoke_all_by_user_id env user_id

  unfoldable pub link_email : Text → Text → Action User
  unfolding normalize_email Users.find_by_email Users.update_email
  link_email user_input email_input = do
    let user_id = trim_space user_input
    email ← lift (normalize_email env email_input)
    guard (not (is_empty user_id || is_empty email)) (usecase UsecaseError.invalid_input)
    inspect (expect_no_other user_id) (Users.find_by_email env email)
    Users.update_email env user_id email
