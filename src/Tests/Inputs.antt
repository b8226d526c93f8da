-- ===== src/Tests/Inputs.antt =====
-- Phone numbers and OTP codes at concrete inputs.
use datn_backend.Prelude.{◌≡◌, refl}
use datn_backend.Text.{utf8, trim_space}
use datn_backend.Errors.{ok}
use datn_backend.Auth.Inputs.{normalize_phone_number, generate_otp_code}
use datn_backend.Auth.Inputs.NormalForms.{IsPhoneNumber, normalize_phone_number_shape}
use datn_backend.Tests.Environment.{env, empty_world}

normalized : normalize_phone_number (utf8 " +84 (91) 234.567-8 ") ≡ ok (utf8 "+84912345678")
unfolding normalize_phone_number trim_space
normalized = refl

normalize_phone_number_shape_example :
    IsPhoneNumber (utf8 "+84912345678")
    × (normalize_phone_number (utf8 "+84912345678") ≡ ok (utf8 "+84912345678"))
normalize_phone_number_shape_example =
    normalize_phone_number_shape (utf8 " +84 (91) 234.567-8 ") (utf8 "+84912345678") normalized

generated : (generate_otp_code env empty_world).0 ≡ ok (utf8 "000042")
unfolding generate_otp_code
generated = refl
