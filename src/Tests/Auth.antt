-- ===== src/Tests/Auth.antt =====
-- Registration, login and refresh at concrete inputs.
use datn_backend.Prelude.{
  ◌+◌, ◌≡◌, refl, true, false, none, some, [], ◌∷◌, length, ◌≤◌, ◌<◌, ◌*◌, ◌≢◌, arith,
}
use datn_backend.Text.{Text, utf8, trim_space, is_empty}
use datn_backend.Repo.RefreshTokens
use datn_backend.Repo.RefreshTokens.{has_hash}
use datn_backend.Domain.{Time, hour, User, AuthOtp, second, purpose_register}
use datn_backend.Errors.{ok, err, usecase, UsecaseError}
use datn_backend.World.{World, empty_db}
use datn_backend.Token.{Service, claims_of}
use datn_backend.Domain.Claims.{access}
use datn_backend.Text.Base64.{encode}
use datn_backend.Auth.Register.Completion.{Completion, complete_register_ok, complete_register_err}
use datn_backend.Auth.Register.Entry.{IsSession, login-complete_register}
use datn_backend.Tests.Environment.{env-IsBcrypt, env, empty_world}
use datn_backend.Auth.Setup.{AuthUseCase, AuthSession, new_auth_use_case}
use datn_backend.Auth.Register.{
  request_register_otp, verify_register_otp, complete_register, check_code, create_account,
  accept_code,
}
use datn_backend.Auth.Sessions.{login}
use datn_backend.Prelude.Tables.{find, any, newest, select}
use datn_backend.Prelude.Int.{pos}
use datn_backend.Domain.Sessions.{RegisterOtpVerification, bearer}
use datn_backend.Repo.AuthOtps.{latest_otp, used}
use datn_backend.Auth.Inputs.{is_valid_otp_code, normalize_phone_number}
use datn_backend.Auth.Register.Codes.{
  count_wrong, verify_register_otp_sound, verify_register_otp_once,
}
use datn_backend.Auth.Register.Guesses.{count_wrong_bound}
use datn_backend.Repo.Registration

abbrev pub service : Service
service = record {
  secret = utf8 "secret";
  issuer = utf8 "issuer";
  audience = utf8 "audience";
  access_ttl = hour;
}

abbrev pub uc : AuthUseCase
uc = new_auth_use_case service 0

abbrev pub phone : Text
phone = utf8 " +84 912-345-678 "

abbrev requested : World
requested = (request_register_otp env phone empty_world).1

abbrev code : Text
code = utf8 "000042"

abbrev plain : Text
plain = utf8 "+84912345678"

abbrev otp : AuthOtp
otp = record {
  id = 4 ∷ [];
  phone_number = plain;
  purpose = purpose_register;
  otp_hash = b'$' ∷ code;
  expires_at = 304 * second;
  attempt_count = 0;
  max_attempts = 5;
  used_at = none;
  created_at = 5 * second;
}

-- The requested world, computed.
abbrev requested_world : World
requested_world = record { db = record empty_db { auth_otps = otp ∷ [] }; steps = 5 }

requested_lem : requested ≡ requested_world
unfolding request_register_otp normalize_phone_number trim_space find any
requested_lem = refl

named : normalize_phone_number phone ≡ ok plain
unfolding normalize_phone_number trim_space
named = refl

plain_named : normalize_phone_number plain ≡ ok plain
unfolding normalize_phone_number trim_space
plain_named = refl

found : latest_otp plain purpose_register requested_world.auth_otps ≡ some otp
unfolding latest_otp newest select
found = refl

count_wrong_bound_example :
    count_wrong env uc phone (utf8 "000041" ∷ utf8 "000042" ∷ utf8 "12" ∷ []) requested_world + 0
    ≤ 5
count_wrong_bound_example =
    count_wrong_bound env uc plain phone (utf8 "000041" ∷ utf8 "000042" ∷ utf8 "12" ∷ []) otp
      requested_world named found (omega arith)

abbrev verification : RegisterOtpVerification
verification = record {
  access_token = 3609000000000 ∷ 9000000000 ∷ 9000000000 ∷ 9 ∷ 1 ∷ plain;
  token_type = bearer;
  expires_at = 3609 * second;
  expires_in = pos 3597;
}

verified : (verify_register_otp env uc phone code requested_world).0 ≡ ok verification
unfolding verify_register_otp accept_code normalize_phone_number trim_space is_valid_otp_code find
    latest_otp newest select check_code any new_auth_use_case
verified = refl

verify_register_otp_sound_example :
    (o : AuthOtp) × (at : Time) × (latest_otp plain purpose_register requested_world.auth_otps
      ≡ some o)
    × (o.used_at ≡ none)
    × (env.clock (5 + 1 + 1) ≤ o.expires_at)
    × (o.attempt_count < o.max_attempts)
    × (env.bcrypt_compare o.otp_hash (trim_space code) ≡ true)
    × (latest_otp plain purpose_register
          (verify_register_otp env uc phone code requested_world).1.auth_otps
        ≡ some (used at o))
verify_register_otp_sound_example =
    verify_register_otp_sound env uc phone code plain requested_world verification named verified

verify_register_otp_once_example :
    (verify_register_otp env uc plain code
      (verify_register_otp env uc phone code requested_world).1).0
    ≢ ok verification
verify_register_otp_once_example =
    verify_register_otp_once env uc phone code plain plain code requested_world
      (verify_register_otp env uc phone code requested_world).1 verification named plain_named
      verified refl verification

abbrev name_input : Text
name_input = utf8 " An "

abbrev pub password : Text
password = utf8 "password"

abbrev pub user : User
user = record {
  id = 10 ∷ [];
  email = none;
  phone_number = plain;
  full_name = utf8 "An";
  password_hash = b'$' ∷ password;
  last_login_at = none;
  created_at = 11 * second;
}

abbrev session : AuthSession
session = record {
  user = user;
  tokens = record {
    access_token = 3614000000000 ∷ 14000000000 ∷ 14000000000 ∷ 14 ∷ 0 ∷ 10 ∷ [];
    refresh_token = utf8 "Bg";
    token_type = bearer;
    expires_at = 3614 * second;
    expires_in = pos 3598;
  };
}

registers : (complete_register env uc phone name_input password requested_world).0 ≡ ok session
unfolding complete_register normalize_phone_number trim_space find create_account
    Registration.complete_register any new_auth_use_case encode
registers = refl

complete_register_ok_example :
    (phone_number : Text) × (normalize_phone_number phone ≡ ok phone_number)
    × (8 ≤ length password)
    × Completion env uc phone_number
        (trim_space name_input)
        password
        requested_world.db
        (complete_register env uc phone name_input password requested_world).1.db
        session
complete_register_ok_example =
    complete_register_ok env uc phone name_input password requested_world session registers

-- The world after the registration.
abbrev registered : World
registered = (complete_register env uc phone name_input password requested_world).1

given : is_empty (trim_space password) ≡ false
unfolding trim_space
given = refl

signed :
    env.jwt_sign uc.tokens.secret (
      claims_of uc.tokens session.user.id access
        (env.clock (registered.steps + 1))
        (env.gen_random_uuid (registered.steps + 1 + 1)))
    ≡ some (3618000000000 ∷ 18000000000 ∷ 18000000000 ∷ 18 ∷ 0 ∷ session.user.id)
unfolding complete_register normalize_phone_number trim_space find create_account
    Registration.complete_register any new_auth_use_case
signed = refl

drawn : env.rand_read (registered.steps + 1 + 1 + 1) 32 ≡ some (19 ∷ [])
unfolding complete_register normalize_phone_number trim_space find create_account
    Registration.complete_register any
drawn = refl

new_id :
    any
      (RefreshTokens.has_id (env.gen_random_uuid (registered.steps + 1 + 1 + 1 + 1 + 1)))
      registered.refresh_tokens
    ≡ false
unfolding complete_register any normalize_phone_number trim_space find create_account
    Registration.complete_register
new_id = refl

new_hash : any (has_hash (env.sha256_hex (encode (19 ∷ [])))) registered.refresh_tokens ≡ false
unfolding complete_register any normalize_phone_number trim_space find create_account
    Registration.complete_register encode
new_hash = refl

login-complete_register_example :
    IsSession env uc session.user
      (3618000000000 ∷ 18000000000 ∷ 18000000000 ∷ 18 ∷ 0 ∷ session.user.id)
      (encode (19 ∷ []))
      (login env uc phone password registered).0
login-complete_register_example =
    login-complete_register env uc phone name_input password
      (3618000000000 ∷ 18000000000 ∷ 18000000000 ∷ 18 ∷ 0 ∷ session.user.id) (19 ∷ [])
      requested_world registered session env-IsBcrypt registers refl given refl signed drawn refl
      new_id new_hash

-- The number is taken.
abbrev taken_world : World
taken_world = record requested_world { db = record empty_db { users = user ∷ [] } }

refuses_taken :
    (complete_register env uc phone name_input password taken_world).0
    ≡ err (usecase UsecaseError.phone_already_exists)
unfolding complete_register normalize_phone_number trim_space find
refuses_taken = refl

complete_register_err_example :
    (complete_register env uc phone name_input password taken_world).1.db ≡ taken_world.db
complete_register_err_example =
    complete_register_err env uc phone name_input password taken_world
      (usecase UsecaseError.phone_already_exists) refuses_taken (ground arith)
