-- ===== src/Auth/Requests/Statements.antt =====
-- What the statements that write do to the tables, and the calls below the methods of AuthUseCase.
use datn_backend.Prelude.{Bool-cases, inl, inr, Bool, Option, none, some, List, [], ◌∷◌, ◌++◌}
use datn_backend.Prelude.Tables.{update, find, any}
use datn_backend.Text.{Text}
use datn_backend.Domain.{Time, User, RefreshToken, AuthOtp}
use datn_backend.Errors.{Error, Result, ok, err, RepoError, repo}
use datn_backend.World.{Db, Env}
use datn_backend.Action.Keeps.{
  Keeps, Keeps-statement, Keeps-raise, Keeps-pure, Keeps-guard, keeps_rules,
}
use datn_backend.Repo.AuthOtps
use datn_backend.Repo.Users
use datn_backend.Repo.RefreshTokens
use datn_backend.Repo.RefreshTokens.{has_hash, is_live_hash, is_live_of, revoked, insert_token}
use datn_backend.Repo.RefreshTokens.Transactions.{insert_token_cases}
use datn_backend.Token.{
  Service, AccessToken, issue_token, issue_access_token, issue_register_token,
  generate_refresh_token,
}
use datn_backend.Auth.Inputs.{generate_otp_code}
use datn_backend.Auth.Setup.{bearer_tokens, expect_no_user}
use datn_backend.Auth.Sessions

-- The statements that write: users and OTPs at will, and refresh tokens by an insertion and by
-- revocations.
pub record Rules (P : Db → Type 0) : Type 0 where
  pub user_rows : (rows : List User) (db : Db) → P db → P (record db { users = rows })
  pub otp_rows : (rows : List AuthOtp) (db : Db) → P db → P (record db { auth_otps = rows })
  pub token_insertion :
      (row : RefreshToken) (db : Db)
      → P db
      → P (record db { refresh_tokens = db.refresh_tokens ++ row ∷ [] })
  pub token_revocation :
      (p : RefreshToken → Bool) (at : Time) (db : Db)
      → P db
      → P (record db { refresh_tokens = update p (revoked at) db.refresh_tokens })

module _ {P : Db → Type 0} (env : Env) (rules : Rules P) where
  pub create-Keeps : (token : RefreshToken) → Keeps P (RefreshTokens.create env token)
  unfolding RefreshTokens.create
  create-Keeps token =
      Keeps-statement env (insert_token env token)
        λ n db h. insert_token_cases P env token n db h (λ row. rules.token_insertion row db h)

  pub revoke_by_hash-Keeps : (hash : Text) → Keeps P (RefreshTokens.revoke_by_hash env hash)
  unfolding RefreshTokens.revoke_by_hash
  revoke_by_hash-Keeps hash = Keeps-statement env _ λ n db h.
      elim (Bool-cases (any (is_live_hash hash) db.refresh_tokens)) [
        | inl e ↦ rw e (rules.token_revocation (is_live_hash hash) (env.db_clock n) db h)
        | inr e ↦ rw e (h)
      ]

  pub revoke_all-Keeps :
      (user_id : Text) → Keeps P (RefreshTokens.revoke_all_by_user_id env user_id)
  unfolding RefreshTokens.revoke_all_by_user_id
  revoke_all-Keeps user_id =
      Keeps-statement env _
        λ n db h. rules.token_revocation (is_live_of user_id) (env.db_clock n) db h

  pub create_user-Keeps : (user : User) → Keeps P (Users.create env user)
  unfolding Users.create Users.insert_user
  create_user-Keeps user = Keeps-statement env _ λ n db h.
      elim (Bool-cases (
        Users.user_conflicts (Users.user_row (env.gen_random_uuid n) (env.db_clock n) user)
          db.users)) [ inl e ↦ rw e (h) | inr e ↦ rw e (rules.user_rows _ db h) ]

  email_outcome-Keeps :
      (user_id email : Text) (db : Db) (users : List User) (found : Option User)
      → P db
      → P (Users.email_outcome user_id email db users found).1
  email_outcome-Keeps user_id email db users none h = h
  email_outcome-Keeps user_id email db users (some user) h =
      elim (Bool-cases (any (Users.email_taken user_id email) db.users)) [
        | inl e ↦ rw e (h)
        | inr e ↦ rw e (rules.user_rows users db h)
      ]

  pub update_email-Keeps : (user_id email : Text) → Keeps P (Users.update_email env user_id email)
  unfolding Users.update_email
  update_email-Keeps user_id email = Keeps-statement env _ λ n db h.
      let users = update (Users.has_id user_id) (Users.with_email email) db.users in
      email_outcome-Keeps user_id email db users (find (Users.has_id user_id) users) h

  pub create_otp-Keeps : (otp : AuthOtp) → Keeps P (AuthOtps.create env otp)
  unfolding AuthOtps.create
  create_otp-Keeps otp = Keeps-statement env _ λ n db h.
      elim (Bool-cases (any (AuthOtps.has_id (env.gen_random_uuid n)) db.auth_otps)) [
        | inl e ↦ rw e (h)
        | inr e ↦ rw e (rules.otp_rows _ db h)
      ]

  pub increment_attempt-Keeps : (id : Text) → Keeps P (AuthOtps.increment_attempt env id)
  unfolding AuthOtps.increment_attempt
  increment_attempt-Keeps id = Keeps-statement env _ λ n db h.
      elim (Bool-cases (any (AuthOtps.has_id id) db.auth_otps)) [
        | inl e ↦ rw e (rules.otp_rows _ db h)
        | inr e ↦ rw e (h)
      ]

  pub mark_used-Keeps : (id : Text) → Keeps P (AuthOtps.mark_used env id)
  unfolding AuthOtps.mark_used
  mark_used-Keeps id = Keeps-statement env _ λ n db h.
      elim (Bool-cases (any (AuthOtps.has_id id) db.auth_otps)) [
        | inl e ↦ rw e (rules.otp_rows _ db h)
        | inr e ↦ rw e (h)
      ]

  pub find_by_phone_number-Keeps :
      (phone_number : Text) → Keeps P (Users.find_by_phone_number env phone_number)
  unfolding Users.find_by_phone_number
  find_by_phone_number-Keeps phone_number = search keeps_rules

  pub find_by_id-Keeps : (id : Text) → Keeps P (Users.find_by_id env id)
  unfolding Users.find_by_id
  find_by_id-Keeps id = search keeps_rules

  pub find_by_email-Keeps : (email : Text) → Keeps P (Users.find_by_email env email)
  unfolding Users.find_by_email
  find_by_email-Keeps email = search keeps_rules

  pub find_by_hash-Keeps : (hash : Text) → Keeps P (RefreshTokens.find_by_hash env hash)
  unfolding RefreshTokens.find_by_hash
  find_by_hash-Keeps hash = search keeps_rules

  pub find_latest-Keeps :
      (phone_number purpose : Text) → Keeps P (AuthOtps.find_latest env phone_number purpose)
  unfolding AuthOtps.find_latest
  find_latest-Keeps phone_number purpose = search keeps_rules

  pub issue_token-Keeps :
      (s : Service) (subject token_type : Text) → Keeps P (issue_token env s subject token_type)
  unfolding issue_token
  issue_token-Keeps s subject token_type = search keeps_rules

  pub issue_access_token-Keeps :
      (s : Service) (subject : Text) → Keeps P (issue_access_token env s subject)
  unfolding issue_access_token
  issue_access_token-Keeps s subject = issue_token-Keeps s subject _

  pub issue_register_token-Keeps :
      (s : Service) (subject : Text) → Keeps P (issue_register_token env s subject)
  unfolding issue_register_token
  issue_register_token-Keeps s subject = issue_token-Keeps s subject _

  pub generate_refresh_token-Keeps : Keeps P (generate_refresh_token env)
  unfolding generate_refresh_token
  generate_refresh_token-Keeps = search keeps_rules

  pub generate_otp_code-Keeps : Keeps P (generate_otp_code env)
  unfolding generate_otp_code
  generate_otp_code-Keeps = search keeps_rules

  pub bearer_tokens-Keeps :
      (t : AccessToken) (refresh_token : Text) → Keeps P (bearer_tokens env t refresh_token)
  unfolding bearer_tokens
  bearer_tokens-Keeps t refresh_token = search keeps_rules

  pub expect_no_user-Keeps : (e : Error) (r : Result User) → Keeps P (expect_no_user e r)
  expect_no_user-Keeps e (ok user) = Keeps-raise e
  expect_no_user-Keeps e (err (repo RepoError.user_not_found)) = Keeps-pure tt
  expect_no_user-Keeps e (err other) = Keeps-raise other

  pub expect_no_other-Keeps :
      (user_id : Text) (r : Result User) → Keeps P (Sessions.expect_no_other user_id r)
  expect_no_other-Keeps user_id (ok user) = Keeps-guard _ _
  expect_no_other-Keeps user_id (err (repo RepoError.user_not_found)) = Keeps-pure tt
  expect_no_other-Keeps user_id (err other) = Keeps-raise other
