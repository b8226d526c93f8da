-- ===== src/Auth/Register/Guesses.antt =====
-- How many wrong codes VerifyRegisterOTP answers for one OTP.
use datn_backend.Prelude.{ℕ, ◌+◌, ◌≤◌, ◌≡◌, refl, inl, inr, false, some, List, [], ◌∷◌, arith}
use datn_backend.Text.{Text, trim_space}
use datn_backend.Domain.{AuthOtp, purpose_register}
use datn_backend.Domain.Sessions.{RegisterOtpVerification}
use datn_backend.Errors.{usecase, UsecaseError, Result, ok, err}
use datn_backend.World.{World, Env}
use datn_backend.Repo.AuthOtps.{used, with_one_more_attempt, latest_otp}
use datn_backend.Auth.Inputs.{normalize_phone_number}
use datn_backend.Auth.Setup.{AuthUseCase}
use datn_backend.Action.{Action}
use datn_backend.Domain.{is_used}
use datn_backend.Prelude.{ltb, leb, if◌then◌else◌, Bool-cases}
use datn_backend.Auth.Register.{accept_code, reject_code, check_code, verify_register_otp}
use datn_backend.Auth.Register.Codes.{
  is_verdict, check_code_ok, check_code_invalid, verify_reaches_check, latest-used,
  latest-with_one_more_attempt, is_invalid, count_wrong,
}

-- The newest OTP of the number after a call: with a wrong code counted, if it was told to be wrong.
record Spends (phone_number : Text) (otp : AuthOtp) (spent : ℕ) (v : World) : Type 0 where
  left : AuthOtp
  found : latest_otp phone_number purpose_register v.auth_otps ≡ some left
  same_max : left.max_attempts ≡ otp.max_attempts
  counted : spent + otp.attempt_count ≤ left.attempt_count
  room : left.attempt_count ≤ left.max_attempts

module _ (env : Env) (uc : AuthUseCase) (phone_number : Text) where
  reject_code_quiet :
      (otp : AuthOtp) (w : World)
      → is_verdict (reject_code env otp w).0 ≡ false
      → ((reject_code env otp w).1.auth_otps ≡ w.auth_otps)
        × (is_invalid (reject_code env otp w).0 ≡ 0)
  unfolding reject_code
  reject_code_quiet otp w h = (ground arith, ground arith)

  accept_code_quiet :
      (otp : AuthOtp) (w : World)
      → is_verdict (accept_code env uc phone_number otp w).0 ≡ false
      → ((accept_code env uc phone_number otp w).1.auth_otps ≡ w.auth_otps)
        × (is_invalid (accept_code env uc phone_number otp w).0 ≡ 0)
  unfolding accept_code
  accept_code_quiet otp w h = (ground arith, ground arith)

  -- Once the OTP is found to be unused, fresh and to have attempts left.
  abbrev compared : Text → AuthOtp → Action RegisterOtpVerification
  compared code otp =
      if env.bcrypt_compare otp.otp_hash code
      then accept_code env uc phone_number otp
      else reject_code env otp

  compared_quiet :
      (code : Text) (otp : AuthOtp) (w : World)
      → is_verdict (compared code otp w).0 ≡ false
      → ((compared code otp w).1.auth_otps ≡ w.auth_otps) × (is_invalid (compared code otp w).0 ≡ 0)
  compared_quiet code otp w h = elim (Bool-cases (env.bcrypt_compare otp.otp_hash code)) [
    | inl e ↦ rw e (accept_code_quiet otp w (rw e at h))
    | inr e ↦ rw e (reject_code_quiet otp w (rw e at h))
  ]

  check_code_compares :
      (code : Text) (otp : AuthOtp) (w : World)
      → is_used otp ≡ false
      → ltb otp.expires_at (env.clock w.steps) ≡ false
      → leb otp.max_attempts otp.attempt_count ≡ false
      → check_code env uc phone_number code otp w
        ≡ compared code otp (record w { steps = w.steps + 1 })
  unfolding check_code
  check_code_compares code otp w a b c = rw (a, b, c) refl

  check_code_quiet :
      (code : Text) (otp : AuthOtp) (w : World)
      → is_verdict (check_code env uc phone_number code otp w).0 ≡ false
      → ((check_code env uc phone_number code otp w).1.auth_otps ≡ w.auth_otps)
        × (is_invalid (check_code env uc phone_number code otp w).0 ≡ 0)
  unfolding check_code
  check_code_quiet code otp w h = elim (Bool-cases (is_used otp)) [
    | inl a ↦ (ground arith, ground arith)
    | inr a ↦ elim (Bool-cases (ltb otp.expires_at (env.clock w.steps))) [
      | inl b ↦ (ground arith, ground arith)
      | inr b ↦ elim (Bool-cases (leb otp.max_attempts otp.attempt_count)) [
        | inl c ↦ (ground arith, ground arith)
        | inr c ↦
            (let v = record w { steps = w.steps + 1 } in
              let same = check_code_compares code otp w a b c in
              let quiet = compared_quiet code otp v (rw same at h) in rw same quiet)
      ]
    ]
  ]

  verdict-Spends :
      (code : Text) (otp : AuthOtp) (w : World) (r : Result RegisterOtpVerification)
      → (check_code env uc phone_number code otp w).0 ≡ r
      → latest_otp phone_number purpose_register w.auth_otps ≡ some otp
      → otp.attempt_count ≤ otp.max_attempts
      → Spends phone_number otp (is_invalid r) (check_code env uc phone_number code otp w).1
  verdict-Spends code otp w (ok r) h found room =
      let (_, _, _, _, after) = check_code_ok env uc phone_number code otp w r h in
      let at = env.db_clock (w.steps + 1 + 1 + 1) in
      record {
        left = used at otp;
        found = rw after (latest-used env uc phone_number at w.auth_otps otp found);
        same_max = refl;
        counted = omega arith;
        room = room;
      }
  verdict-Spends code otp w (err (usecase UsecaseError.invalid_otp)) h found room =
      let (_, less, _, after) = check_code_invalid env uc phone_number code otp w h in
      record {
        left = with_one_more_attempt otp;
        found = rw after (latest-with_one_more_attempt env uc phone_number w.auth_otps otp found);
        same_max = refl;
        counted = omega arith;
        room = omega arith;
      }
  verdict-Spends code otp w (err e) h found room =
      let (after, none_spent) = check_code_quiet code otp w (rw h) in
      record {
        left = otp;
        found = rw after found;
        same_max = refl;
        counted = omega arith;
        room = room;
      }

  verify-Spends :
      (input code : Text) (otp : AuthOtp) (w : World)
      → normalize_phone_number input ≡ ok phone_number
      → latest_otp phone_number purpose_register w.auth_otps ≡ some otp
      → otp.attempt_count ≤ otp.max_attempts
      → Spends phone_number otp
          (is_invalid (verify_register_otp env uc input code w).0)
          (verify_register_otp env uc input code w).1
  verify-Spends input code otp w named found room =
      elim (verify_reaches_check env uc input code phone_number otp w named found) [
        | inl (quiet, after) ↦ record {
          left = otp;
          found = rw after found;
          same_max = refl;
          counted = ground arith;
          room = room;
        }
        | inr reached ↦ rw reached (
            verdict-Spends (trim_space code) otp (record w { steps = w.steps + 1 + 1 }) _ refl found
              room)
      ]

  -- However many codes are tried for a number while no new OTP is requested for it, at most as many
  -- are told to be wrong as its newest OTP had attempts left.
  pub count_wrong_bound :
      (input : Text) (codes : List Text) (otp : AuthOtp) (w : World)
      → normalize_phone_number input ≡ ok phone_number
      → latest_otp phone_number purpose_register w.auth_otps ≡ some otp
      → otp.attempt_count ≤ otp.max_attempts
      → count_wrong env uc input codes w + otp.attempt_count ≤ otp.max_attempts
  unfolding count_wrong
  count_wrong_bound input [] otp w named found room = omega arith
  count_wrong_bound input (code ∷ codes) otp w named found room =
      let s = verify-Spends input code otp w named found room in
      let rest =
        count_wrong_bound input codes s.left (verify_register_otp env uc input code w).1 named
          s.found s.room in
      omega (arith, rest, s.counted, s.same_max)
