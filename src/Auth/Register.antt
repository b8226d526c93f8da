-- ===== src/Auth/Register.antt =====
-- RequestRegisterOTP, VerifyRegisterOTP and CompleteRegister.
pub mod Codes
pub mod Guesses
pub mod Completion
pub mod Entry
use datn_backend.Prelude.{
  ℕ, [], ◌+◌, Bool, true, false, not, ◌||◌, Option, none, some, ltb, leb, if◌then◌else◌, length,
}
use datn_backend.Text.{Text, trim_space, is_empty}
use datn_backend.Domain.{Time, AuthOtp, User, RefreshToken, is_used, purpose_register}
use datn_backend.Domain.Sessions.{
  RegisterOtpChallenge, RegisterOtpVerification, seconds_from, bearer,
}
use datn_backend.Errors.{Error, usecase, repo, UsecaseError, RepoError, Result, ok, err}
use datn_backend.World.{World, Env}
use datn_backend.Action.{
  Action, pure, raise, lift, guard, inspect, translate, now, bcrypt_generate, ◌>>=◌, ◌>>◌,
}
use datn_backend.Repo.AuthOtps
use datn_backend.Repo.Users
use datn_backend.Repo.Registration
use datn_backend.Token.{
  Service, AccessToken, issue_register_token, issue_access_token, generate_refresh_token,
  hash_refresh_token,
}
use datn_backend.Auth.Inputs.{normalize_phone_number, is_valid_otp_code, generate_otp_code}
use datn_backend.Auth.Setup.{
  AuthUseCase, AuthSession, register_otp_ttl, register_otp_max_attempts, expect_no_user,
  bearer_tokens, new_refresh_token,
}

-- The domain.AuthOTP of a request.
abbrev pub new_otp : Text → Text → Time → AuthOtp
new_otp phone_number otp_hash expires_at = record {
  id = [];
  phone_number = phone_number;
  purpose = purpose_register;
  otp_hash = otp_hash;
  expires_at = expires_at;
  attempt_count = 0;
  max_attempts = register_otp_max_attempts;
  used_at = none;
  created_at = 0;
}

-- The domain.User of a registration.
abbrev pub new_user : Text → Text → Text → User
new_user phone_number full_name password_hash = record {
  id = [];
  email = none;
  phone_number = phone_number;
  full_name = full_name;
  password_hash = password_hash;
  last_login_at = none;
  created_at = 0;
}

-- if errors.Is(err, repo.ErrUserAlreadyExists) { return nil, ErrPhoneAlreadyExists }
abbrev pub or_phone_already_exists : Error → Error
or_phone_already_exists (repo RepoError.user_already_exists) =
    usecase UsecaseError.phone_already_exists
or_phone_already_exists e = e

module _ (env : Env) where
  unfoldable pub request_register_otp : Text → Action RegisterOtpChallenge
  unfolding Users.find_by_phone_number generate_otp_code bcrypt_generate now AuthOtps.create
  request_register_otp input = do
    phone_number ← lift (normalize_phone_number input)
    inspect (expect_no_user (usecase UsecaseError.phone_already_exists))
        (Users.find_by_phone_number env phone_number)
    otp_code ← generate_otp_code env
    otp_hash ← bcrypt_generate env otp_code
    at ← now env
    otp ← AuthOtps.create env (new_otp phone_number otp_hash (at + register_otp_ttl))
    pure (record { expires_at = otp.expires_at; dev_otp = otp_code })

  -- The code is wrong: the attempt is counted first.
  unfoldable pub reject_code : AuthOtp → Action RegisterOtpVerification
  unfolding AuthOtps.increment_attempt
  reject_code otp = do
    AuthOtps.increment_attempt env otp.id
    raise (usecase UsecaseError.invalid_otp)

  unfoldable pub accept_code : AuthUseCase → Text → AuthOtp → Action RegisterOtpVerification
  unfolding issue_register_token AuthOtps.mark_used now
  accept_code uc phone_number otp = do
    register_token ← issue_register_token env uc.tokens phone_number
    AuthOtps.mark_used env otp.id
    at ← now env
    pure (record {
      access_token = register_token.token;
      token_type = bearer;
      expires_at = register_token.expires_at;
      expires_in = seconds_from at register_token.expires_at;
    })

  -- From the OTP that was found.
  unfoldable pub check_code : AuthUseCase → Text → Text → AuthOtp → Action RegisterOtpVerification
  unfolding is_used now
  check_code uc phone_number otp_code otp = do
    guard (not (is_used otp)) (usecase UsecaseError.otp_used)
    at ← now env
    guard (not (ltb otp.expires_at at)) (usecase UsecaseError.otp_expired)
    guard (not (leb otp.max_attempts otp.attempt_count))
        (usecase UsecaseError.otp_too_many_attempts)
    if env.bcrypt_compare otp.otp_hash otp_code
        then accept_code uc phone_number otp
        else reject_code otp

  unfoldable pub verify_register_otp : AuthUseCase → Text → Text → Action RegisterOtpVerification
  unfolding Users.find_by_phone_number AuthOtps.find_latest
  verify_register_otp uc input otp_input = do
    phone_number ← lift (normalize_phone_number input)
    let otp_code = trim_space otp_input
    guard (is_valid_otp_code otp_code) (usecase UsecaseError.invalid_input)
    inspect (expect_no_user (usecase UsecaseError.phone_already_exists))
        (Users.find_by_phone_number env phone_number)
    otp ← AuthOtps.find_latest env phone_number purpose_register
    check_code uc phone_number otp_code otp

  -- From the checks on.
  unfoldable pub create_account : AuthUseCase → Text → Text → Text → Action AuthSession
  unfolding generate_refresh_token bcrypt_generate now issue_access_token bearer_tokens
      hash_refresh_token
  create_account uc phone_number full_name password = do
    refresh_token ← generate_refresh_token env
    password_hash ← bcrypt_generate env password
    at ← now env
    user ← translate or_phone_already_exists (
        Registration.complete_register env (new_user phone_number full_name password_hash)
          (new_refresh_token [] (hash_refresh_token env refresh_token) (at + uc.refresh_token_ttl)))
    access_token ← issue_access_token env uc.tokens user.id
    tokens ← bearer_tokens env access_token refresh_token
    pure (record { user = user; tokens = tokens })

  unfoldable pub complete_register : AuthUseCase → Text → Text → Text → Action AuthSession
  unfolding Users.find_by_phone_number
  complete_register uc phone_input name_input password = do
    phone_number ← lift (normalize_phone_number phone_input)
    let full_name = trim_space name_input
    guard (not (is_empty full_name || ltb (length password) 8)) (usecase UsecaseError.invalid_input)
    inspect (expect_no_user (usecase UsecaseError.phone_already_exists))
        (Users.find_by_phone_number env phone_number)
    create_account uc phone_number full_name password
