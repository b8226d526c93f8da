-- ===== src/Repo/RefreshTokens.antt =====
-- internal/repo/postgres/refresh_token_repo.go.
pub mod Transactions
use datn_backend.Prelude.{
  ℕ, ◌+◌, Bool, true, false, not, ◌&&◌, ◌||◌, Option, none, some, List, [], ◌∷◌, ◌++◌,
  if◌then◌else◌,
}
use datn_backend.Prelude.Tables.{find, any, update}
use datn_backend.Text.{Text, text_eq}
use datn_backend.Domain.{Time, RefreshToken, is_some}
use datn_backend.Errors.{Error, repo, unique_violation, db_failed, Result, ok, err, RepoError}
use datn_backend.World.{World, Db, Env}
use datn_backend.Action.{Action, pure, statement, query, transaction, ◌>>=◌, ◌>>◌}
use datn_backend.Repo.Users

abbrev pub has_hash : Text → RefreshToken → Bool
has_hash token_hash token = text_eq token.token_hash token_hash

-- WHERE … AND revoked_at IS NULL
abbrev pub is_live : RefreshToken → Bool
is_live token = not (is_some token.revoked_at)

abbrev pub is_live_hash : Text → RefreshToken → Bool
is_live_hash token_hash token = has_hash token_hash token && is_live token

abbrev pub is_live_of : Text → RefreshToken → Bool
is_live_of user_id token = text_eq token.user_id user_id && is_live token

abbrev pub revoked : Time → RefreshToken → RefreshToken
revoked at token = record token { revoked_at = some at }

abbrev pub or_token_not_found : Option RefreshToken → Result RefreshToken
or_token_not_found none = err (repo RepoError.refresh_token_not_found)
or_token_not_found (some token) = ok token

-- The columns of the INSERT; the others have their defaults.
abbrev pub token_row : Text → Time → RefreshToken → RefreshToken
token_row id created token = record token { id = id; revoked_at = none; created_at = created }

abbrev pub has_id : Text → RefreshToken → Bool
has_id id token = text_eq token.id id

-- The primary key and the unique token hash of the table.
abbrev pub token_conflicts : RefreshToken → List RefreshToken → Bool
token_conflicts row tokens = any (has_id row.id) tokens || any (has_hash row.token_hash) tokens

-- A token of no user violates the foreign key.
unfoldable pub insert_token : Env → RefreshToken → ℕ → Db → Result RefreshToken × Db
insert_token env token n db =
    let row = token_row (env.gen_random_uuid n) (env.db_clock n) token in
    if token_conflicts row db.refresh_tokens
    then (err unique_violation, db)
    else if any (Users.has_id row.user_id) db.users
    then (ok row, record db { refresh_tokens = db.refresh_tokens ++ row ∷ [] })
    else (err db_failed, db)

module _ (env : Env) where
  unfoldable pub create : RefreshToken → Action RefreshToken
  unfolding statement insert_token
  create token = statement env (insert_token env token)

  unfoldable pub find_by_hash : Text → Action RefreshToken
  unfolding query
  find_by_hash token_hash =
      query env λ db. or_token_not_found (find (has_hash token_hash) db.refresh_tokens)

  unfoldable pub revoke_by_hash : Text → Action (Unit {0})
  unfolding statement
  revoke_by_hash token_hash = statement env λ n db.
      if any (is_live_hash token_hash) db.refresh_tokens
      then (
        ok tt,
        record db {
          refresh_tokens =
              update (is_live_hash token_hash) (revoked (env.db_clock n)) db.refresh_tokens;
        },
      )
      else (err (repo RepoError.refresh_token_not_found), db)

  unfoldable pub revoke_all_by_user_id : Text → Action (Unit {0})
  unfolding statement
  revoke_all_by_user_id user_id = statement env λ n db. (
    ok tt,
    record db {
      refresh_tokens = update (is_live_of user_id) (revoked (env.db_clock n)) db.refresh_tokens;
    },
  )

  unfoldable pub replace : Text → RefreshToken → Action RefreshToken
  unfolding revoke_by_hash create transaction
  replace current_token_hash next_token =
      transaction env
        (do revoke_by_hash current_token_hash; next ← create next_token; pure (ok next))
