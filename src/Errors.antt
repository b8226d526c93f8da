-- ===== src/Errors.antt =====
-- The error values. The sentinels of internal/usecase and of internal/repo are different values
-- also where they have the same text, so they are two types.
use datn_backend.Prelude.{◌⊎◌, inl, inr, Bool, true, false, ◌≡◌, refl}

pub data UsecaseError : Type 0 where
  invalid_input phone_already_exists email_already_exists invalid_otp otp_expired otp_used :
      UsecaseError
  otp_too_many_attempts invalid_credentials invalid_refresh_token refresh_token_expired :
      UsecaseError
  refresh_token_revoked pairing_session_not_found pairing_session_mismatch : UsecaseError
  pairing_session_not_pending pairing_session_expired pairing_code_unavailable : UsecaseError
  agent_credential_invalid pc_agent_not_found : UsecaseError

pub data RepoError : Type 0 where
  otp_not_found user_not_found user_already_exists refresh_token_not_found : RepoError
  pairing_session_not_found pairing_session_not_pending pairing_session_expired : RepoError
  pairing_session_code_exists pc_agent_not_found : RepoError

-- `unique_violation` is a PgError with code 23505; `db_failed` is any other error of a statement;
-- `index_out_of_range` is a panic; `invalid_payload` is an error of encoding/json on an MQTT message,
-- `notification_failed` one of a notification and `network_failed` one of an MQTT connection.
pub data Error : Type 0 where
  usecase : UsecaseError → Error
  repo : RepoError → Error
  unique_violation db_failed missing_pc_agent_id : Error
  invalid_token random_failed bcrypt_failed sign_failed : Error
  index_out_of_range invalid_payload notification_failed network_failed : Error

pub data Result {ℓ} (A : Type ℓ) : Type ℓ where
  ok : A → Result A
  err : Error → Result A

abbrev pub is_ok {ℓ} : {A : Type ℓ} → Result A → Bool
is_ok (ok a) = true
is_ok (err e) = false

pub ok_of_is_ok {ℓ} : {A : Type ℓ} (r : Result A) → is_ok r ≡ true → (a : A) × (r ≡ ok a)
ok_of_is_ok (ok a) h = (a, refl)
ok_of_is_ok (err e) h = cc

pub err_of_is_ok {ℓ} : {A : Type ℓ} (r : Result A) → is_ok r ≡ false → (e : Error) × (r ≡ err e)
err_of_is_ok (ok a) h = cc
err_of_is_ok (err e) h = (e, refl)

pub Result-cases {ℓ} :
    {A : Type ℓ} → (r : Result A) → ((e : Error) × (r ≡ err e)) ⊎ ((a : A) × (r ≡ ok a))
Result-cases (ok a) = inr (a, refl)
Result-cases (err e) = inl (e, refl)
