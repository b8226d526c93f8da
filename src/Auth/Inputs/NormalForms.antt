-- ===== src/Auth/Inputs/NormalForms.antt =====
-- What the normal forms look like, and that they are normal.
use datn_backend.Prelude.{
  ℕ, ◌+◌, ◌≤◌, ◌<◌, ◌≡◌, refl, sym, ap, ◌∙◌, ◌-◌, ◌*◌, ◌^◌, inl, inr, true, Option, none, some, [],
  ◌∷◌, arith, ◌==◌, Bool-cases, length, all, All,
}
use datn_backend.Text.{Text, is_digit, trim_space}
use datn_backend.Text.Spaces.Plain.{IsPlain, trim_space_plain}
use datn_backend.Errors.{ok}
use datn_backend.World.{World, Env}
use datn_backend.Errors.{random_failed}
use datn_backend.Action.{pure, continue, from_option}
use datn_backend.Auth.Inputs.{
  strip_marks, is_number, matches_phone_number, normalize_phone_number, six_digits,
  generate_otp_code, is_valid_otp_code,
}

-- An optional '+' and nine to fifteen digits.
abbrev pub IsDigit : ℕ → Type 0
IsDigit c = (b'0' ≤ c) × (c ≤ b'9')

pub data IsPhoneNumber : Text → Type 0 where
  national : {s : Text} → All IsDigit s → 9 ≤ length s → length s ≤ 15 → IsPhoneNumber s
  international :
      {s : Text} → All IsDigit s → 9 ≤ length s → length s ≤ 15 → IsPhoneNumber (b'+' ∷ s)

digits_of_all : (s : Text) → all is_digit s ≡ true → All IsDigit s
digits_of_all [] h = tt
digits_of_all (c ∷ s) h = (ground arith, digits_of_all s (ground arith))

number_of_test : (s : Text) → is_number s ≡ true → All IsDigit s × (9 ≤ length s) × (length s ≤ 15)
number_of_test s h = (digits_of_all s (ground arith), ground arith, ground arith)

IsPhoneNumber-of_test : (s : Text) → matches_phone_number s ≡ true → IsPhoneNumber s
IsPhoneNumber-of_test [] h = cc
IsPhoneNumber-of_test (c ∷ s) h = elim (Bool-cases (c == b'+')) [
  | inl plus ↦
      (let (ds, lo, hi) = number_of_test s (rw plus at h) in
        let same : c ≡ b'+' = ground arith in rw same (international ds lo hi))
  | inr other ↦ (let (ds, lo, hi) = number_of_test (c ∷ s) (rw other at h) in national ds lo hi)
]

all_of_digits : (s : Text) → All IsDigit s → all is_digit s ≡ true
all_of_digits [] h = refl
all_of_digits (c ∷ s) ((lo, hi), h) = ground (arith, all_of_digits s h)

strip_marks-digits : (s : Text) → All IsDigit s → strip_marks s ≡ s
unfolding strip_marks
strip_marks-digits [] h = refl
strip_marks-digits (c ∷ s) ((lo, hi), h) = ground (arith, strip_marks-digits s h)

IsPlain-of_digits : (s : Text) → All IsDigit s → All IsPlain s
IsPlain-of_digits [] h = tt
IsPlain-of_digits (c ∷ s) ((lo, hi), h) = ((omega arith, ground arith), IsPlain-of_digits s h)

number_test : (s : Text) → All IsDigit s → 9 ≤ length s → length s ≤ 15 → is_number s ≡ true
number_test s ds lo hi = ground (arith, all_of_digits s ds)

phone_number_test : (s : Text) → IsPhoneNumber s → matches_phone_number s ≡ true
phone_number_test s (national {s = []} ds lo hi) = absurd (omega arith)
phone_number_test s (national {s = c ∷ t} ((l, u), ds) lo hi) =
    ground (arith, number_test (c ∷ t) ((l, u), ds) lo hi)
phone_number_test s (international {s = t} ds lo hi) = number_test t ds lo hi

phone_number_unchanged : (s : Text) → IsPhoneNumber s → strip_marks (trim_space s) ≡ s
phone_number_unchanged s (national {s = t} ds lo hi) =
    rw (trim_space_plain t (IsPlain-of_digits t ds)) (strip_marks-digits t ds)
phone_number_unchanged s (international {s = t} ds lo hi) =
    rw (trim_space_plain (b'+' ∷ t) ((omega arith, refl), IsPlain-of_digits t ds))
      (unfold strip_marks in ap (λ r. b'+' ∷ r) (strip_marks-digits t ds))

normalize_phone_number_id : (s : Text) → IsPhoneNumber s → normalize_phone_number s ≡ ok s
unfolding normalize_phone_number
normalize_phone_number_id s h = rw (phone_number_unchanged s h, phone_number_test s h)

-- An accepted phone number is an optional '+' with nine to fifteen digits, and normalizing such a
-- number once more changes nothing, so the accepted texts are exactly the normal forms.
pub normalize_phone_number_shape :
    (input s : Text)
    → normalize_phone_number input ≡ ok s
    → IsPhoneNumber s × (normalize_phone_number s ≡ ok s)
unfolding normalize_phone_number
normalize_phone_number_shape input s h =
    let shape : IsPhoneNumber s = IsPhoneNumber-of_test s (ground arith) in
    (shape, normalize_phone_number_id s shape)

six_digits-IsDigit : (n : ℕ) → All IsDigit (six_digits n)
six_digits-IsDigit n = omega arith

six_digits-valid : (n : ℕ) → is_valid_otp_code (six_digits n) ≡ true
unfolding is_valid_otp_code
six_digits-valid n = rw (all_of_digits (six_digits n) (six_digits-IsDigit n))

trim_space-six_digits : (n : ℕ) → trim_space (six_digits n) ≡ six_digits n
trim_space-six_digits n =
    trim_space_plain (six_digits n) (IsPlain-of_digits (six_digits n) (six_digits-IsDigit n))

-- A generated code passes the test of VerifyRegisterOTP, and trimming does not change it.
pub generate_otp_code_valid :
    (env : Env) (w : World) (code : Text)
    → (generate_otp_code env w).0 ≡ ok code
    → (is_valid_otp_code code ≡ true) × (trim_space code ≡ code)
unfolding generate_otp_code
generate_otp_code_valid env w code h = from_number (env.rand_int w.steps 1000000) h
  where
    from_number :
        (o : Option ℕ)
        → (continue
            (λ n. pure (six_digits n))
            (from_option random_failed o, record w { steps = w.steps + 1 })).0
          ≡ ok code
        → (is_valid_otp_code code ≡ true) × (trim_space code ≡ code)
    from_number none e = cc
    from_number (some n) e =
        let same : six_digits n ≡ code = ground arith in
        rw (← same) (six_digits-valid n, trim_space-six_digits n)

-- The number that six digits stand for.
read_digits : Text → ℕ
read_digits [] = 0
read_digits (c ∷ s) = (c - b'0') * 10 ^ length s + read_digits s

read_digits-six_digits : (n : ℕ) → n < 1000000 → read_digits (six_digits n) ≡ n
unfolding read_digits
read_digits-six_digits n h = omega arith

-- No two numbers below a million share a code.
pub six_digits_injective :
    (m n : ℕ) → m < 1000000 → n < 1000000 → six_digits m ≡ six_digits n → m ≡ n
six_digits_injective m n hm hn e =
    sym (read_digits-six_digits m hm) ∙ ap read_digits e ∙ read_digits-six_digits n hn
