-- ===== src/Text/Base64.antt =====
-- base64.RawURLEncoding: three bytes as four characters of the URL alphabet, with no padding.
pub mod Plain
use datn_backend.Prelude.{
  ℕ, ◌+◌, ◌-◌, ◌*◌, ◌/◌, ◌%◌, ◌<◌, [], ◌∷◌, ◌≡◌, refl, sym, ap, ◌∙◌, arith, leb, ltb, ◌==◌,
  if◌then◌else◌, All,
}
use mathlib.Core.Path.{ap₂}
use datn_backend.Text.Utf8.{Text}

-- A-Z, a-z, 0-9, '-' and '_'.
digit : ℕ → ℕ
digit v =
    if ltb v 26
    then b'A' + v
    else if ltb v 52
    then b'a' + (v - 26)
    else if ltb v 62
    then b'0' + (v - 52)
    else if v == 62
    then b'-'
    else b'_'

unfoldable pub encode : Text → Text
unfolding digit
encode [] = []
encode (a ∷ []) = digit (a / 4) ∷ digit (a % 4 * 16) ∷ []
encode (a ∷ b ∷ []) = digit (a / 4) ∷ digit (a % 4 * 16 + b / 16) ∷ digit (b % 16 * 4) ∷ []
encode (a ∷ b ∷ c ∷ s) =
    digit (a / 4)
    ∷ digit (a % 4 * 16 + b / 16)
    ∷ digit (b % 16 * 4 + c / 64)
    ∷ digit (c % 64)
    ∷ encode s

-- The reading of one character, and of an encoded text.
value : ℕ → ℕ
value c =
    if leb b'a' c
    then c - b'a' + 26
    else if c == b'_'
    then 63
    else if leb b'A' c
    then c - b'A'
    else if leb b'0' c
    then c - b'0' + 52
    else 62

pub decode : Text → Text
decode (p ∷ q ∷ []) = (value p * 4 + value q / 16) ∷ []
decode (p ∷ q ∷ r ∷ []) = (value p * 4 + value q / 16) ∷ (value q % 16 * 16 + value r / 4) ∷ []
decode (p ∷ q ∷ r ∷ t ∷ s) =
    (value p * 4 + value q / 16)
    ∷ (value q % 16 * 16 + value r / 4)
    ∷ (value r % 4 * 64 + value t)
    ∷ decode s
decode _ = []

value-digit : (v : ℕ) → v < 64 → value (digit v) ≡ v
unfolding value digit
value-digit v h = ground arith

-- The characters that stand for one, two and three bytes.
tail_one : (a : ℕ) → a < 256 → value (digit (a / 4)) * 4 + value (digit (a % 4 * 16)) / 16 ≡ a
tail_one a h =
    rw (value-digit (a / 4) (omega arith), value-digit (a % 4 * 16) (omega arith)) (omega arith)

first_byte :
    (a b : ℕ)
    → a < 256
    → b < 256
    → value (digit (a / 4)) * 4 + value (digit (a % 4 * 16 + b / 16)) / 16 ≡ a
first_byte a b h k =
    rw (value-digit (a / 4) (omega arith), value-digit (a % 4 * 16 + b / 16) (omega arith))
      (omega arith)

tail_two :
    (a b : ℕ)
    → a < 256
    → b < 256
    → value (digit (a % 4 * 16 + b / 16)) % 16 * 16 + value (digit (b % 16 * 4)) / 4 ≡ b
tail_two a b h k =
    rw (value-digit (a % 4 * 16 + b / 16) (omega arith), value-digit (b % 16 * 4) (omega arith))
      (omega arith)

second_byte :
    (a b c : ℕ)
    → a < 256
    → b < 256
    → c < 256
    → value (digit (a % 4 * 16 + b / 16)) % 16 * 16 + value (digit (b % 16 * 4 + c / 64)) / 4 ≡ b
second_byte a b c h k l =
    rw
      (
        value-digit (a % 4 * 16 + b / 16) (omega arith),
        value-digit (b % 16 * 4 + c / 64) (omega arith),
      )
      (omega arith)

third_byte :
    (b c : ℕ)
    → b < 256
    → c < 256
    → value (digit (b % 16 * 4 + c / 64)) % 4 * 64 + value (digit (c % 64)) ≡ c
third_byte b c h k =
    rw (value-digit (b % 16 * 4 + c / 64) (omega arith), value-digit (c % 64) (omega arith))
      (omega arith)

-- Decoding gives back the bytes that were encoded.
pub decode-encode : (s : Text) → All (λ b. b < 256) s → decode (encode s) ≡ s
unfolding decode encode
decode-encode [] h = refl
decode-encode (a ∷ []) h = ap (λ x. x ∷ []) (tail_one a h.0)
decode-encode (a ∷ b ∷ []) (ha, (hb, t)) =
    ap₂ (λ x y. x ∷ y ∷ []) (first_byte a b ha hb) (tail_two a b ha hb)
decode-encode (a ∷ b ∷ c ∷ s) (ha, (hb, (hc, t))) =
    ap₂ (λ x r. x ∷ r) (first_byte a b ha hb)
      (ap₂ (λ y r. y ∷ r) (second_byte a b c ha hb hc)
        (ap₂ (λ z r. z ∷ r) (third_byte b c hb hc) (decode-encode s t)))

-- So different bytes have different encodings.
pub encode_injective :
    (s t : Text) → All (λ b. b < 256) s → All (λ b. b < 256) t → encode s ≡ encode t → s ≡ t
encode_injective s t hs ht e = sym (decode-encode s hs) ∙ ap decode e ∙ decode-encode t ht
