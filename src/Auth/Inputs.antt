-- ===== src/Auth/Inputs.antt =====
-- The normal forms of phone numbers, e-mail addresses and OTP codes.
pub mod NormalForms
use datn_backend.Prelude.{
  ℕ, ◌+◌, ◌*◌, ◌/◌, ◌%◌, Bool, true, false, not, ◌&&◌, ◌||◌, Option, none, some, List, [], ◌∷◌, leb,
  ◌==◌, if◌then◌else◌, length, all,
}
use datn_backend.Text.{Text, trim_space, to_lower, is_digit, is_empty}
use datn_backend.Errors.{Error, usecase, UsecaseError, Result, ok, err}
use datn_backend.World.{World, Env}
use datn_backend.Action.{Action, pure, rand_int, ◌>>=◌}

-- What the Replacer of normalizePhoneNumber deletes: ' ', '-', '.', '(' and ')'.
abbrev pub is_mark : ℕ → Bool
is_mark c = c == b' ' || c == b'-' || c == b'.' || c == b'(' || c == b')'

unfoldable pub strip_marks : Text → Text
strip_marks [] = []
strip_marks (c ∷ s) = let rest = strip_marks s in if is_mark c then rest else c ∷ rest

-- [0-9]{9,15}
abbrev pub is_number : Text → Bool
is_number s = all is_digit s && leb 9 (length s) && leb (length s) 15

-- ^\+?[0-9]{9,15}$
abbrev pub matches_phone_number : Text → Bool
matches_phone_number [] = false
matches_phone_number (c ∷ s) = if c == b'+' then is_number s else is_number (c ∷ s)

unfoldable pub normalize_phone_number : Text → Result Text
unfolding strip_marks
normalize_phone_number phone_number =
    let stripped = strip_marks (trim_space phone_number) in
    if matches_phone_number stripped then ok stripped else err (usecase UsecaseError.invalid_input)

-- err != nil || parsed.Address == ""
abbrev or_invalid_email : Option Text → Result Text
or_invalid_email none = err (usecase UsecaseError.invalid_input)
or_invalid_email (some address) =
    if is_empty address then err (usecase UsecaseError.invalid_input) else ok address

unfoldable pub normalize_email : Env → Text → Result Text
normalize_email env email =
    let lowered = trim_space (to_lower env.lower_unicode email) in
    if is_empty lowered
    then err (usecase UsecaseError.invalid_input)
    else or_invalid_email (env.parse_address lowered)

-- fmt.Sprintf("%06d", n) of a number below 1000000.
abbrev pub six_digits : ℕ → Text
six_digits n =
    (b'0' + n / 100000 % 10)
    ∷ (b'0' + n / 10000 % 10)
    ∷ (b'0' + n / 1000 % 10)
    ∷ (b'0' + n / 100 % 10)
    ∷ (b'0' + n / 10 % 10)
    ∷ (b'0' + n % 10)
    ∷ []

unfoldable pub generate_otp_code : Env → Action Text
unfolding rand_int
generate_otp_code env = do n ← rand_int env 1000000; pure (six_digits n)

-- A rune outside '0' to '9' has a byte outside it.
unfoldable pub is_valid_otp_code : Text → Bool
is_valid_otp_code otp = length otp == 6 && all is_digit otp
