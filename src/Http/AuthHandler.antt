-- ===== src/Http/AuthHandler.antt =====
-- auth_handler.go.
use datn_backend.Prelude.{[], ◌∷◌}
use datn_backend.Text.{Text, utf8}
use datn_backend.Domain.{User}
use datn_backend.Domain.Sessions.{AuthTokens, RegisterOtpChallenge, RegisterOtpVerification}
use datn_backend.Errors.{Error, usecase, repo, UsecaseError, RepoError}
use datn_backend.World.{Env}
use datn_backend.Auth.Setup.{AuthUseCase, AuthSession}
use datn_backend.Auth.Register
use datn_backend.Auth.Sessions
use datn_backend.Http.Json.{Json, int, obj, field, end, optional, text_field, one_field, Codec}
use datn_backend.Http.Replies.{
  Reply, Handler, write_json, write_error, write_internal_error, decode_json, answer,
}
use datn_backend.Http.Middleware.{user_id_from_context, register_phone_from_context, with_value}

abbrev pub invalid_input : Reply
invalid_input = write_error 400 (utf8 "invalid_input")

abbrev pub phone_number_already_exists : Reply
phone_number_already_exists = write_error 409 (utf8 "phone_number_already_exists")

-- The switches on the error, one for each handler.
abbrev pub request_register_otp_error : Error → Reply
request_register_otp_error (usecase UsecaseError.invalid_input) = invalid_input
request_register_otp_error (usecase UsecaseError.phone_already_exists) = phone_number_already_exists
request_register_otp_error e = write_internal_error

abbrev pub verify_register_otp_error : Error → Reply
verify_register_otp_error (usecase UsecaseError.invalid_input) = invalid_input
verify_register_otp_error (usecase UsecaseError.phone_already_exists) = phone_number_already_exists
verify_register_otp_error (repo RepoError.otp_not_found) = write_error 400 (utf8 "otp_not_found")
verify_register_otp_error (usecase UsecaseError.otp_expired) = write_error 400 (utf8 "otp_expired")
verify_register_otp_error (usecase UsecaseError.otp_used) =
    write_error 400 (utf8 "otp_already_used")
verify_register_otp_error (usecase UsecaseError.otp_too_many_attempts) =
    write_error 429 (utf8 "otp_too_many_attempts")
verify_register_otp_error (usecase UsecaseError.invalid_otp) = write_error 400 (utf8 "invalid_otp")
verify_register_otp_error e = write_internal_error

abbrev pub login_error : Error → Reply
login_error (usecase UsecaseError.invalid_input) = invalid_input
login_error (usecase UsecaseError.invalid_credentials) =
    write_error 401 (utf8 "invalid_credentials")
login_error e = write_internal_error

abbrev pub refresh_error : Error → Reply
refresh_error (usecase UsecaseError.invalid_input) = invalid_input
refresh_error (usecase UsecaseError.invalid_refresh_token) =
    write_error 401 (utf8 "invalid_refresh_token")
refresh_error (usecase UsecaseError.refresh_token_revoked) =
    write_error 401 (utf8 "invalid_refresh_token")
refresh_error (usecase UsecaseError.refresh_token_expired) =
    write_error 401 (utf8 "refresh_token_expired")
refresh_error e = write_internal_error

abbrev pub logout_error : Error → Reply
logout_error (usecase UsecaseError.invalid_input) = invalid_input
logout_error (usecase UsecaseError.invalid_refresh_token) =
    write_error 401 (utf8 "invalid_refresh_token")
logout_error e = write_internal_error

abbrev pub invalid_input_error : Error → Reply
invalid_input_error (usecase UsecaseError.invalid_input) = invalid_input
invalid_input_error e = write_internal_error

abbrev pub link_email_error : Error → Reply
link_email_error (usecase UsecaseError.invalid_input) = invalid_input
link_email_error (usecase UsecaseError.email_already_exists) =
    write_error 409 (utf8 "email_already_exists")
link_email_error (repo RepoError.user_not_found) = write_error 404 (utf8 "user_not_found")
link_email_error e = write_internal_error

abbrev pub status_ok : Reply
status_ok = write_json 200 (one_field (utf8 "status") (utf8 "ok"))

module _ (codec : Codec) where
  unfoldable pub to_user_response : User → Json
  to_user_response user = obj (
      text_field (utf8 "id") user.id (
        field (utf8 "email") (optional user.email) (
          text_field (utf8 "phone_number") user.phone_number (
            text_field (utf8 "full_name") user.full_name
              (text_field (utf8 "created_at") (codec.format_time user.created_at) end)))))

  unfoldable pub to_auth_tokens_response : AuthTokens → Json
  to_auth_tokens_response tokens = obj (
      text_field (utf8 "access_token") tokens.access_token (
        text_field (utf8 "refresh_token") tokens.refresh_token (
          text_field (utf8 "token_type") tokens.token_type (
            text_field (utf8 "expires_at") (codec.format_time tokens.expires_at)
              (field (utf8 "expires_in") (int tokens.expires_in) end)))))

  unfoldable pub to_auth_session_response : AuthSession → Json
  unfolding to_user_response
  to_auth_session_response session = obj (
      field (utf8 "user") (to_user_response session.user) (
        text_field (utf8 "access_token") session.tokens.access_token (
          text_field (utf8 "refresh_token") session.tokens.refresh_token (
            text_field (utf8 "token_type") session.tokens.token_type (
              text_field (utf8 "expires_at") (codec.format_time session.tokens.expires_at)
                (field (utf8 "expires_in") (int session.tokens.expires_in) end))))))

  unfoldable pub to_register_otp_verification_response : RegisterOtpVerification → Json
  to_register_otp_verification_response verification = obj (
      text_field (utf8 "access_token") verification.access_token (
        text_field (utf8 "token_type") verification.token_type (
          text_field (utf8 "expires_at") (codec.format_time verification.expires_at)
            (field (utf8 "expires_in") (int verification.expires_in) end))))

  -- DevOTP is never nil.
  unfoldable pub to_challenge_response : RegisterOtpChallenge → Json
  to_challenge_response challenge = obj (
      text_field (utf8 "expires_at") (codec.format_time challenge.expires_at)
        (text_field (utf8 "dev_otp") challenge.dev_otp end))

abbrev pub phone_key : Text
phone_key = utf8 "phone_number"

abbrev pub refresh_token_key : Text
refresh_token_key = utf8 "refresh_token"

module _ (env : Env) (codec : Codec) (auth : AuthUseCase) where
  unfoldable pub handle_request_register_otp : Handler
  unfolding decode_json Register.request_register_otp to_challenge_response
  handle_request_register_otp request = decode_json codec (phone_key ∷ []) [] request λ fields.
      answer request_register_otp_error
        (λ result. write_json 200 (to_challenge_response codec result))
        (Register.request_register_otp env (fields.text phone_key))

  unfoldable pub handle_verify_register_otp : Handler
  unfolding decode_json Register.verify_register_otp to_register_otp_verification_response
  handle_verify_register_otp request =
      decode_json codec (phone_key ∷ utf8 "otp" ∷ []) [] request λ fields.
        answer verify_register_otp_error
          (λ verification.
            write_json 200 (to_register_otp_verification_response codec verification))
          (Register.verify_register_otp env auth (fields.text phone_key) (fields.text (utf8 "otp")))

  unfoldable pub handle_complete_register : Handler
  unfolding decode_json Register.complete_register to_auth_session_response
      register_phone_from_context
  handle_complete_register request =
      with_value (utf8 "missing_register_phone") (register_phone_from_context request)
        λ phone_number.
          decode_json codec (utf8 "full_name" ∷ utf8 "password" ∷ []) [] request λ fields.
            answer request_register_otp_error
              (λ session. write_json 201 (to_auth_session_response codec session))
              (Register.complete_register env auth phone_number (fields.text (utf8 "full_name"))
                (fields.text (utf8 "password")))

  unfoldable pub handle_login : Handler
  unfolding decode_json Sessions.login to_auth_session_response
  handle_login request = decode_json codec (phone_key ∷ utf8 "password" ∷ []) [] request λ fields.
      answer login_error (λ session. write_json 200 (to_auth_session_response codec session))
        (Sessions.login env auth (fields.text phone_key) (fields.text (utf8 "password")))

  unfoldable pub handle_refresh : Handler
  unfolding decode_json Sessions.refresh to_auth_tokens_response
  handle_refresh request = decode_json codec (refresh_token_key ∷ []) [] request λ fields.
      answer refresh_error (λ tokens. write_json 200 (to_auth_tokens_response codec tokens))
        (Sessions.refresh env auth (fields.text refresh_token_key))

  unfoldable pub handle_logout : Handler
  unfolding decode_json Sessions.logout
  handle_logout request = decode_json codec (refresh_token_key ∷ []) [] request λ fields.
      answer logout_error (λ done. status_ok) (Sessions.logout env (fields.text refresh_token_key))

  unfoldable pub handle_logout_all : Handler
  unfolding Sessions.logout_all user_id_from_context
  handle_logout_all request =
      with_value (utf8 "missing_user_id") (user_id_from_context request)
        λ user_id. answer invalid_input_error (λ done. status_ok) (Sessions.logout_all env user_id)

  unfoldable pub handle_link_email : Handler
  unfolding decode_json Sessions.link_email to_user_response user_id_from_context
  handle_link_email request =
      with_value (utf8 "missing_user_id") (user_id_from_context request) λ user_id.
        decode_json codec (utf8 "email" ∷ []) [] request λ fields.
          answer link_email_error (λ user. write_json 200 (to_user_response codec user))
            (Sessions.link_email env user_id (fields.text (utf8 "email")))
