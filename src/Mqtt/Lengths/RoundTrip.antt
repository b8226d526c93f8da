-- ===== src/Mqtt/Lengths/RoundTrip.antt =====
-- Lengths below 2 ^ 28 survive, and no others.
use datn_backend.Prelude.{
  ℕ, zero, suc, ◌+◌, ◌*◌, ◌/◌, ◌%◌, ◌^◌, ◌≤◌, ◌<◌, ◌≡◌, refl, ap, ◌∙◌, inl, inr, true, false, none,
  some, ◌∷◌, ◌++◌, arith, ltb, ◌==◌, Bool-cases,
}
use datn_backend.Mqtt.Lengths.{
  Bytes, encode_digits, encode_remaining_length, read_digits, read_remaining_length,
}

sum_of_parts : (q r m v : ℕ) → v + r * m + q * (m * 128) ≡ v + (q * 128 + r) * m
sum_of_parts q r m v = grind arith

sum_of_digits : (n m v : ℕ) → v + n % 128 * m + n / 128 * (m * 128) ≡ v + n * m
sum_of_digits n m v =
    let parts : n / 128 * 128 + n % 128 ≡ n = omega arith in
    sum_of_parts (n / 128) (n % 128) m v ∙ ap (λ k. v + k * m) parts

below_power : (rounds n : ℕ) → n < 128 ^ suc rounds → n / 128 < 128 ^ rounds
below_power rounds n h = grind arith

read_last :
    (rounds n m v : ℕ) (s : Bytes)
    → n / 128 ≡ 0
    → read_digits (suc rounds) m v (n % 128 ∷ s) ≡ some (v + n * m, s)
unfolding read_digits
read_last rounds n m v s e =
    let same : n % 128 ≡ n = omega arith in
    let again : n % 128 % 128 ≡ n = omega arith in
    let low : ltb (n % 128) 128 ≡ true = ground arith in rw (low, again)

read_more :
    (rounds n m v : ℕ) (s : Bytes)
    → read_digits (suc rounds) m v ((n % 128 + 128) ∷ s)
      ≡ read_digits rounds (m * 128) (v + n % 128 * m) s
unfolding read_digits
read_more rounds n m v s =
    let again : (n % 128 + 128) % 128 ≡ n % 128 = omega arith in
    let high : ltb (n % 128 + 128) 128 ≡ false = ground arith in rw (high, again) refl

read_encoded :
    (rounds fuel n m v : ℕ) (s : Bytes)
    → n < 128 ^ suc rounds
    → n < fuel
    → read_digits (suc rounds) m v (encode_digits fuel n ++ s) ≡ some (v + n * m, s)
unfolding encode_digits
read_encoded rounds zero n m v s small enough = absurd (omega arith)
read_encoded zero (suc fuel) n m v s small enough =
    let last : n / 128 ≡ 0 = omega arith in
    let test : (n / 128 == 0) ≡ true = ground arith in rw test (read_last zero n m v s last)
read_encoded (suc rounds) (suc fuel) n m v s small enough = elim (Bool-cases (n / 128 == 0)) [
  | inl e ↦ rw e (read_last (suc rounds) n m v s (ground arith))
  | inr e ↦ rw e (
      read_more (suc rounds) n m v (encode_digits fuel (n / 128) ++ s)
      ∙ read_encoded rounds fuel (n / 128) (m * 128) (v + n % 128 * m) s
          (below_power (suc rounds) n small) (ground arith)
      ∙ ap (λ k. some (k, s)) (sum_of_digits n m v))
]

one_le_power : (k : ℕ) → 1 ≤ 128 ^ k
one_le_power zero = omega arith
one_le_power (suc k) = grind (arith, one_le_power k)

read_too_long :
    (rounds fuel n m v : ℕ) (s : Bytes)
    → 128 ^ rounds ≤ n
    → n < fuel
    → read_digits rounds m v (encode_digits fuel n ++ s) ≡ none
unfolding read_digits encode_digits
read_too_long zero fuel n m v s large enough = refl
read_too_long (suc rounds) zero n m v s large enough = absurd (omega arith)
read_too_long (suc rounds) (suc fuel) n m v s large enough =
    let rest : 128 ^ rounds ≤ n / 128 = grind arith in
    let some_rest : 1 ≤ 128 ^ rounds = one_le_power rounds in
    let test : (n / 128 == 0) ≡ false = ground arith in
    rw test (
      read_more rounds n m v (encode_digits fuel (n / 128) ++ s)
      ∙ read_too_long rounds fuel (n / 128) (m * 128) (v + n % 128 * m) s rest (ground arith))

-- A length below 2 ^ 28 is read back as it was encoded, and the bytes after it are left.
pub read-encode :
    (n : ℕ) (s : Bytes)
    → n < 268435456
    → read_remaining_length (encode_remaining_length n ++ s) ≡ some (n, s)
unfolding read_remaining_length encode_remaining_length
read-encode n s small =
    read_encoded 3 (suc n) n 1 0 s (omega arith) (omega arith) ∙ ap (λ k. some (k, s)) (omega arith)

-- A longer one is encoded in more than four bytes, which the reader refuses as malformed.
pub read-encode_none :
    (n : ℕ) (s : Bytes)
    → 268435456 ≤ n
    → read_remaining_length (encode_remaining_length n ++ s) ≡ none
unfolding read_remaining_length encode_remaining_length
read-encode_none n s large = read_too_long 4 (suc n) n 1 0 s (omega arith) (omega arith)
