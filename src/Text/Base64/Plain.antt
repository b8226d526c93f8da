-- ===== src/Text/Base64/Plain.antt =====
-- The characters of an encoded text are no white space.
use datn_backend.Prelude.{ℕ, ◌+◌, ◌*◌, ◌/◌, ◌%◌, ◌≡◌, [], ◌∷◌, arith, All}
use datn_backend.Text.Utf8.{Text}
use datn_backend.Text.Spaces.{trim_space}
use datn_backend.Text.Spaces.Plain.{IsPlain, trim_space_plain}
use datn_backend.Text.Base64.{digit, encode}

digit-IsPlain : (v : ℕ) → IsPlain (digit v)
unfolding digit
digit-IsPlain v = (ground arith, ground arith)

encode-IsPlain : (s : Text) → All IsPlain (encode s)
unfolding encode
encode-IsPlain [] = tt
encode-IsPlain (a ∷ []) = (digit-IsPlain (a / 4), (digit-IsPlain (a % 4 * 16), tt))
encode-IsPlain (a ∷ b ∷ []) =
    (digit-IsPlain (a / 4), (digit-IsPlain (a % 4 * 16 + b / 16), (digit-IsPlain (b % 16 * 4), tt)))
encode-IsPlain (a ∷ b ∷ c ∷ s) = (
  digit-IsPlain (a / 4),
  (
    digit-IsPlain (a % 4 * 16 + b / 16),
    (digit-IsPlain (b % 16 * 4 + c / 64), (digit-IsPlain (c % 64), encode-IsPlain s)),
  ),
)

pub trim_space-encode : (s : Text) → trim_space (encode s) ≡ encode s
trim_space-encode s = trim_space_plain (encode s) (encode-IsPlain s)
