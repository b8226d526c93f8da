-- ===== src/Mqtt/Lengths.antt =====
-- encodeRemainingLength and readRemainingLength.
pub mod RoundTrip
use datn_backend.Prelude.{
  ℕ, zero, suc, ◌+◌, ◌*◌, ◌/◌, ◌%◌, Option, none, some, List, [], ◌∷◌, ltb, ◌==◌, if◌then◌else◌,
}

abbrev pub Bytes : Type 0
Bytes = List ℕ

-- The loop divides the length by 128 in each round, so more rounds than the length are enough.
unfoldable pub encode_digits : ℕ → ℕ → Bytes
encode_digits zero length = []
encode_digits (suc fuel) length =
    let rest = encode_digits fuel (length / 128) in
    if length / 128 == 0 then length % 128 ∷ [] else (length % 128 + 128) ∷ rest

unfoldable pub encode_remaining_length : ℕ → Bytes
encode_remaining_length length = encode_digits (suc length) length

-- With this many rounds left; digit[0]&127 and digit[0]&128 of a byte.
unfoldable pub read_digits : ℕ → ℕ → ℕ → Bytes → Option (ℕ × Bytes)
read_digits zero multiplier value s = none
read_digits (suc rounds) multiplier value [] = none
read_digits (suc rounds) multiplier value (digit ∷ s) =
    let value' = value + digit % 128 * multiplier in
    let rest = read_digits rounds (multiplier * 128) value' s in
    if ltb digit 128 then some (value', s) else rest

unfoldable pub read_remaining_length : Bytes → Option (ℕ × Bytes)
read_remaining_length s = read_digits 4 1 0 s
