-- ===== src/Auth/Register/Codes.antt =====
-- An OTP code opens one registration, and wrong codes are counted.
use datn_backend.Prelude.{
  ℕ, ◌+◌, ◌≤◌, ◌<◌, ◌≡◌, ◌≢◌, refl, ◌∙◌, ◌⊎◌, inl, inr, Bool, true, false, none, some, List, [],
  ◌∷◌, arith, if◌then◌else◌, Option-cases,
}
use datn_backend.Prelude.Tables.{update}
use datn_backend.Text.{Text, trim_space, text_eq_refl}
use datn_backend.Domain.{Time, AuthOtp, purpose_register}
use datn_backend.Domain.Sessions.{RegisterOtpVerification}
use datn_backend.Errors.{usecase, UsecaseError, Result, ok, err}
use datn_backend.World.{World, Env}
use datn_backend.Repo.Keys.{newest-update}
use datn_backend.Repo.AuthOtps.{has_id, is_for, used, with_one_more_attempt, latest_otp}
use datn_backend.Auth.Inputs.{normalize_phone_number}
use datn_backend.Auth.Setup.{AuthUseCase}
use datn_backend.Auth.Register.{check_code, reject_code, accept_code, verify_register_otp}

-- The answer says whether the code was right.
abbrev pub is_verdict : Result RegisterOtpVerification → Bool
is_verdict (ok r) = true
is_verdict (err (usecase UsecaseError.invalid_otp)) = true
is_verdict (err e) = false

-- 1 for the answer that the code was wrong.
abbrev pub is_invalid : Result RegisterOtpVerification → ℕ
is_invalid (err (usecase UsecaseError.invalid_otp)) = 1
is_invalid _ = 0

module _ (env : Env) (uc : AuthUseCase) where
  pub check_code_ok :
      (phone_number code : Text) (otp : AuthOtp) (w : World) (r : RegisterOtpVerification)
      → (check_code env uc phone_number code otp w).0 ≡ ok r
      → (otp.used_at ≡ none)
        × (env.clock w.steps ≤ otp.expires_at)
        × (otp.attempt_count < otp.max_attempts)
        × (env.bcrypt_compare otp.otp_hash code ≡ true)
        × ((check_code env uc phone_number code otp w).1.auth_otps
            ≡ update (has_id otp.id) (used (env.db_clock (w.steps + 1 + 1 + 1))) w.auth_otps)
  unfolding check_code reject_code accept_code
  check_code_ok phone_number code otp w r h = ground arith

  pub check_code_invalid :
      (phone_number code : Text) (otp : AuthOtp) (w : World)
      → (check_code env uc phone_number code otp w).0 ≡ err (usecase UsecaseError.invalid_otp)
      → (otp.used_at ≡ none)
        × (otp.attempt_count < otp.max_attempts)
        × (env.bcrypt_compare otp.otp_hash code ≡ false)
        × ((check_code env uc phone_number code otp w).1.auth_otps
            ≡ update (has_id otp.id) with_one_more_attempt w.auth_otps)
  unfolding check_code reject_code accept_code
  check_code_invalid phone_number code otp w h = ground arith

  -- A call reaches the check of the newest OTP of the number, or gives no verdict and leaves the OTPs.
  pub verify_reaches_check :
      (input code phone_number : Text) (otp : AuthOtp) (w : World)
      → normalize_phone_number input ≡ ok phone_number
      → latest_otp phone_number purpose_register w.auth_otps ≡ some otp
      → ((is_verdict (verify_register_otp env uc input code w).0 ≡ false)
          × ((verify_register_otp env uc input code w).1.auth_otps ≡ w.auth_otps))
        ⊎ (verify_register_otp env uc input code w
            ≡ check_code env uc phone_number
                (trim_space code)
                otp
                (record w { steps = w.steps + 1 + 1 }))
  unfolding verify_register_otp
  verify_reaches_check input code phone_number otp w named found = ground arith

  -- Without an OTP of the number there is no verdict.
  verify_none :
      (input code phone_number : Text) (w : World)
      → normalize_phone_number input ≡ ok phone_number
      → latest_otp phone_number purpose_register w.auth_otps ≡ none
      → is_verdict (verify_register_otp env uc input code w).0 ≡ false
  unfolding verify_register_otp
  verify_none input code phone_number w named found = ground arith

  latest-update :
      (phone_number id : Text) (f : AuthOtp → AuthOtp)
      → ((x : AuthOtp)
          → is_for phone_number purpose_register (f x) ≡ is_for phone_number purpose_register x)
      → ((x : AuthOtp) → (f x).created_at ≡ x.created_at)
      → (otps : List AuthOtp) (otp : AuthOtp)
      → latest_otp phone_number purpose_register otps ≡ some otp
      → latest_otp phone_number purpose_register (update (has_id id) f otps)
        ≡ some (if has_id id otp then f otp else otp)
  unfolding latest_otp
  latest-update phone_number id f keep same otps otp found =
      newest-update (λ x. x.created_at) (is_for phone_number purpose_register) (has_id id) f keep
        same otps otp found

  pub latest-used :
      (phone_number : Text) (at : Time) (otps : List AuthOtp) (otp : AuthOtp)
      → latest_otp phone_number purpose_register otps ≡ some otp
      → latest_otp phone_number purpose_register (update (has_id otp.id) (used at) otps)
        ≡ some (used at otp)
  latest-used phone_number at otps otp found =
      latest-update phone_number otp.id (used at) (λ x. refl) (λ x. refl) otps otp found
      ∙ rw (text_eq_refl otp.id)

  pub latest-with_one_more_attempt :
      (phone_number : Text) (otps : List AuthOtp) (otp : AuthOtp)
      → latest_otp phone_number purpose_register otps ≡ some otp
      → latest_otp phone_number purpose_register (update (has_id otp.id) with_one_more_attempt otps)
        ≡ some (with_one_more_attempt otp)
  latest-with_one_more_attempt phone_number otps otp found =
      latest-update phone_number otp.id with_one_more_attempt (λ x. refl) (λ x. refl) otps otp found
      ∙ rw (text_eq_refl otp.id)

  -- A successful verification of a number found an OTP of it that was unused, not expired and had
  -- attempts left, whose hash fits the code; afterwards the newest OTP of the number is that one, used.
  pub verify_register_otp_sound :
      (input code phone_number : Text) (w : World) (r : RegisterOtpVerification)
      → normalize_phone_number input ≡ ok phone_number
      → (verify_register_otp env uc input code w).0 ≡ ok r
      → (otp : AuthOtp) × (at : Time) × (latest_otp phone_number purpose_register w.auth_otps
          ≡ some otp)
        × (otp.used_at ≡ none)
        × (env.clock (w.steps + 1 + 1) ≤ otp.expires_at)
        × (otp.attempt_count < otp.max_attempts)
        × (env.bcrypt_compare otp.otp_hash (trim_space code) ≡ true)
        × (latest_otp phone_number purpose_register
              (verify_register_otp env uc input code w).1.auth_otps
            ≡ some (used at otp))
  verify_register_otp_sound input code phone_number w r named h =
      elim (Option-cases (latest_otp phone_number purpose_register w.auth_otps)) [
        | inl e ↦ cc (verify_none input code phone_number w named e, h)
        | inr (otp, e) ↦ elim (verify_reaches_check input code phone_number otp w named e) [
          | inl (quiet, _) ↦ cc (quiet, h)
          | inr reached ↦
              (let v = record w { steps = w.steps + 1 + 1 } in
                let (unused, fresh, room, fits, after) =
                  check_code_ok phone_number (trim_space code) otp v r (rw reached at h) in
                let at = env.db_clock (v.steps + 1 + 1 + 1) in
                (
                  otp,
                  at,
                  e,
                  unused,
                  fresh,
                  room,
                  fits,
                  rw (reached, after) (latest-used phone_number at w.auth_otps otp e),
                ))
        ]
      ]

  -- An OTP opens at most one registration: after a successful verification, no later one of the
  -- same number succeeds while the OTPs are as it left them.
  pub verify_register_otp_once :
      (input code phone_number again guess : Text) (w v : World) (r : RegisterOtpVerification)
      → normalize_phone_number input ≡ ok phone_number
      → normalize_phone_number again ≡ ok phone_number
      → (verify_register_otp env uc input code w).0 ≡ ok r
      → v.auth_otps ≡ (verify_register_otp env uc input code w).1.auth_otps
      → (s : RegisterOtpVerification) → (verify_register_otp env uc again guess v).0 ≢ ok s
  verify_register_otp_once input code phone_number again guess w v r named renamed h same s g =
      let (otp, at, _, _, _, _, _, after) =
        verify_register_otp_sound input code phone_number w r named h in
      let (other, _, found, unused, _, _, _, _) =
        verify_register_otp_sound again guess phone_number v s renamed g in
      let found' : latest_otp phone_number purpose_register v.auth_otps ≡ some (used at otp) =
        rw same after in
      cc (found, found', unused)

  -- A sequence of guesses for one number, and how many of them were told to be wrong.
  unfoldable pub count_wrong : Text → List Text → World → ℕ
  count_wrong input [] w = 0
  count_wrong input (code ∷ codes) w =
      let (r, v) = verify_register_otp env uc input code w in
      is_invalid r + count_wrong input codes v
