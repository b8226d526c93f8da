-- ===== src/Text/Spaces.antt =====
-- strings.TrimSpace: white space as unicode.IsSpace defines it, at both ends, on the UTF-8 bytes.
pub mod Plain
use mathlib.Core.List.{reverse}
use datn_backend.Prelude.{
  ℕ, zero, suc, ◌≤◌, Bool, true, false, ◌&&◌, ◌||◌, not, List, [], ◌∷◌, ◌≡◌, refl, arith, leb, ltb,
  ◌==◌, if◌then◌else◌, All, length,
}
use datn_backend.Text.Utf8.{Text}

-- '\t', '\n', '\v', '\f', '\r' and ' '.
abbrev pub is_space_byte : ℕ → Bool
is_space_byte c = (leb 9 c && leb c 13) || c == 32

-- U+0085 and U+00A0.
abbrev is_space_two : ℕ → ℕ → Bool
is_space_two a b = a == 0xc2 && (b == 0x85 || b == 0xa0)

-- U+1680, U+2000 to U+200A, U+2028, U+2029, U+202F, U+205F and U+3000.
abbrev is_space_three : ℕ → ℕ → ℕ → Bool
is_space_three a b c =
    (a == 0xe1 && b == 0x9a && c == 0x80)
    || (a == 0xe2
        && b == 0x80
        && ((leb 0x80 c && leb c 0x8a) || c == 0xa8 || c == 0xa9 || c == 0xaf))
    || (a == 0xe2 && b == 0x81 && c == 0x9f)
    || (a == 0xe3 && b == 0x80 && c == 0x80)

abbrev one_or_two : ℕ → ℕ → ℕ → ℕ
one_or_two a first second =
    if is_space_byte a then 1 else if is_space_two first second then 2 else 0

-- The bytes of the white space rune at the front, 0 if there is none.
first_space : Text → ℕ
first_space [] = 0
first_space (a ∷ []) = if is_space_byte a then 1 else 0
first_space (a ∷ b ∷ []) = one_or_two a a b
first_space (a ∷ b ∷ c ∷ s) = if is_space_three a b c then 3 else one_or_two a a b

-- The same on the reversed text, for the rune at the back.
last_space : Text → ℕ
last_space [] = 0
last_space (a ∷ []) = if is_space_byte a then 1 else 0
last_space (a ∷ b ∷ []) = one_or_two a b a
last_space (a ∷ b ∷ c ∷ s) = if is_space_three c b a then 3 else one_or_two a b a

-- Drops `skip` bytes, then white space runes as long as `width` finds one.
drop_spaces : (Text → ℕ) → ℕ → Text → Text
drop_spaces width skip [] = []
drop_spaces width (suc skip) (c ∷ s) = drop_spaces width skip s
drop_spaces width zero (c ∷ s) = elim (width (c ∷ s)) [
  | zero ↦ c ∷ s
  | suc skip ↦ drop_spaces width skip s
]

unfoldable pub trim_space : Text → Text
unfolding first_space last_space drop_spaces
trim_space s = reverse (drop_spaces last_space 0 (reverse (drop_spaces first_space 0 s)))
