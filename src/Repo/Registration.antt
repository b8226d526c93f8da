-- ===== src/Repo/Registration.antt =====
-- internal/repo/postgres/registration_repo.go.
pub mod Outcomes
use datn_backend.Prelude.{ℕ}
use datn_backend.Domain.{User, RefreshToken}
use datn_backend.Errors.{Error, repo, unique_violation, Result, ok, err, RepoError}
use datn_backend.World.{World, Env}
use datn_backend.Action.{Action, pure, translate, transaction, ◌>>=◌, ◌>>◌}
use datn_backend.Repo.Users
use datn_backend.Repo.RefreshTokens

-- if isUniqueViolation(err) { return nil, repo.ErrUserAlreadyExists }
abbrev pub or_user_already_exists : Error → Error
or_user_already_exists unique_violation = repo RepoError.user_already_exists
or_user_already_exists e = e

module _ (env : Env) where
  unfoldable pub complete_register : User → RefreshToken → Action User
  unfolding Users.create RefreshTokens.create transaction
  complete_register user refresh_token = transaction env (do
    created_user ← translate or_user_already_exists (Users.create env user)
    RefreshTokens.create env (record refresh_token { user_id = created_user.id })
    pure (ok created_user))
