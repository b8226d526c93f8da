-- ===== src/Auth/Requests/Invariants.antt =====
-- What the writing statements keep, every authentication request keeps.
use datn_backend.Prelude.{List, [], ◌∷◌}
use datn_backend.Text.{Text}
use datn_backend.Domain.{User, RefreshToken, AuthOtp}
use datn_backend.World.{World, Db, Env}
use datn_backend.Action.Keeps.{Keeps, keeps_rules}
use datn_backend.Repo.Registration
use datn_backend.Repo.RefreshTokens
use datn_backend.Repo.RefreshTokens.{has_hash, is_live_hash, is_live_of, revoked, insert_token}
use datn_backend.Auth.Setup.{AuthUseCase}
use datn_backend.Auth.Register
use datn_backend.Auth.Sessions
use datn_backend.Auth.Requests.{Request, serve, serve_all}
use datn_backend.Auth.Requests.Statements.{
  Rules, create-Keeps, revoke_by_hash-Keeps, revoke_all-Keeps, create_user-Keeps,
  update_email-Keeps, create_otp-Keeps, increment_attempt-Keeps, mark_used-Keeps,
  find_by_phone_number-Keeps, find_by_id-Keeps, find_by_email-Keeps, find_by_hash-Keeps,
  find_latest-Keeps, issue_access_token-Keeps, issue_register_token-Keeps,
  generate_refresh_token-Keeps, generate_otp_code-Keeps, bearer_tokens-Keeps, expect_no_user-Keeps,
  expect_no_other-Keeps,
}

module _ {P : Db → Type 0} (env : Env) (rules : Rules P) where
  ruleset calls = (
    keeps_rules, create-Keeps, revoke_by_hash-Keeps, revoke_all-Keeps, create_user-Keeps,
    update_email-Keeps, create_otp-Keeps, increment_attempt-Keeps, mark_used-Keeps,
    find_by_phone_number-Keeps, find_by_id-Keeps, find_by_email-Keeps, find_by_hash-Keeps,
    find_latest-Keeps, issue_access_token-Keeps, issue_register_token-Keeps,
    generate_refresh_token-Keeps, generate_otp_code-Keeps, bearer_tokens-Keeps,
    expect_no_user-Keeps, expect_no_other-Keeps,
  )

  replace-Keeps :
      (hash : Text) (token : RefreshToken) → Keeps P (RefreshTokens.replace env hash token)
  unfolding RefreshTokens.replace
  replace-Keeps hash token = search calls

  registration-Keeps :
      (user : User) (token : RefreshToken) → Keeps P (Registration.complete_register env user token)
  unfolding Registration.complete_register
  registration-Keeps user token = search calls depth 12

  issue_session-Keeps :
      (uc : AuthUseCase) (user : User) → Keeps P (Sessions.issue_session env uc user)
  unfolding Sessions.issue_session
  issue_session-Keeps uc user = search calls depth 20

  pub login-Keeps :
      (uc : AuthUseCase) (phone_number password : Text)
      → Keeps P (Sessions.login env uc phone_number password)
  unfolding Sessions.login
  login-Keeps uc phone_number password = search (calls, issue_session-Keeps) depth 20

  rotate-Keeps :
      (uc : AuthUseCase) (hash : Text) (stored : RefreshToken)
      → Keeps P (Sessions.rotate env uc hash stored)
  unfolding Sessions.rotate
  rotate-Keeps uc hash stored = search (calls, replace-Keeps) depth 20

  pub refresh-Keeps : (uc : AuthUseCase) (token : Text) → Keeps P (Sessions.refresh env uc token)
  unfolding Sessions.refresh
  refresh-Keeps uc token = search (calls, rotate-Keeps) depth 20

  pub logout-Keeps : (token : Text) → Keeps P (Sessions.logout env token)
  unfolding Sessions.logout
  logout-Keeps token = search calls depth 20

  pub logout_all-Keeps : (user_id : Text) → Keeps P (Sessions.logout_all env user_id)
  unfolding Sessions.logout_all
  logout_all-Keeps user_id = search calls depth 20

  pub link_email-Keeps : (user_id email : Text) → Keeps P (Sessions.link_email env user_id email)
  unfolding Sessions.link_email
  link_email-Keeps user_id email = search calls depth 20

  pub request_register_otp-Keeps :
      (phone_number : Text) → Keeps P (Register.request_register_otp env phone_number)
  unfolding Register.request_register_otp
  request_register_otp-Keeps phone_number = search calls depth 20

  reject_code-Keeps : (otp : AuthOtp) → Keeps P (Register.reject_code env otp)
  unfolding Register.reject_code
  reject_code-Keeps otp = search calls depth 20

  accept_code-Keeps :
      (uc : AuthUseCase) (phone_number : Text) (otp : AuthOtp)
      → Keeps P (Register.accept_code env uc phone_number otp)
  unfolding Register.accept_code
  accept_code-Keeps uc phone_number otp = search calls depth 20

  check_code-Keeps :
      (uc : AuthUseCase) (phone_number code : Text) (otp : AuthOtp)
      → Keeps P (Register.check_code env uc phone_number code otp)
  unfolding Register.check_code
  check_code-Keeps uc phone_number code otp =
      search (calls, reject_code-Keeps, accept_code-Keeps) depth 20

  pub verify_register_otp-Keeps :
      (uc : AuthUseCase) (phone_number code : Text)
      → Keeps P (Register.verify_register_otp env uc phone_number code)
  unfolding Register.verify_register_otp
  verify_register_otp-Keeps uc phone_number code = search (calls, check_code-Keeps) depth 20

  create_account-Keeps :
      (uc : AuthUseCase) (phone_number full_name password : Text)
      → Keeps P (Register.create_account env uc phone_number full_name password)
  unfolding Register.create_account
  create_account-Keeps uc phone_number full_name password =
      search (calls, registration-Keeps) depth 20

  pub complete_register-Keeps :
      (uc : AuthUseCase) (phone_number full_name password : Text)
      → Keeps P (Register.complete_register env uc phone_number full_name password)
  unfolding Register.complete_register
  complete_register-Keeps uc phone_number full_name password =
      search (calls, create_account-Keeps) depth 20

  serve-Keeps : (uc : AuthUseCase) (w : World) (r : Request) → P w.db → P (serve env uc w r).db
  unfolding serve
  serve-Keeps uc w (Request.request_register_otp phone_number) =
      (request_register_otp-Keeps phone_number).at w
  serve-Keeps uc w (Request.verify_register_otp phone_number otp) =
      (verify_register_otp-Keeps uc phone_number otp).at w
  serve-Keeps uc w (Request.complete_register phone_number full_name password) =
      (complete_register-Keeps uc phone_number full_name password).at w
  serve-Keeps uc w (Request.login phone_number password) =
      (login-Keeps uc phone_number password).at w
  serve-Keeps uc w (Request.refresh token) = (refresh-Keeps uc token).at w
  serve-Keeps uc w (Request.logout token) = (logout-Keeps token).at w
  serve-Keeps uc w (Request.logout_all user_id) = (logout_all-Keeps user_id).at w
  serve-Keeps uc w (Request.link_email user_id email) = (link_email-Keeps user_id email).at w

  pub serve_all-Keeps :
      (uc : AuthUseCase) (w : World) (rs : List Request) → P w.db → P (serve_all env uc w rs).db
  unfolding serve_all
  serve_all-Keeps uc w [] h = h
  serve_all-Keeps uc w (r ∷ rs) h = serve_all-Keeps uc (serve env uc w r) rs (serve-Keeps uc w r h)
