-- ===== src/Text/Spaces/Plain.antt =====
-- A text with no white space at its ends, as ASCII bytes, is its own trimmed form.
use mathlib.Core.List.{reverse, reverse-cons, reverse-reverse}
use datn_backend.Prelude.{ℕ, ◌<◌, ◌≡◌, refl, ap, ◌∙◌, false, [], ◌∷◌, arith, All, All-append}
use datn_backend.Text.Utf8.{Text}
use datn_backend.Text.Spaces.{is_space_byte, first_space, last_space, drop_spaces, trim_space}

-- An ASCII byte other than white space.
abbrev pub IsPlain : ℕ → Type 0
IsPlain c = (c < 128) × (is_space_byte c ≡ false)

first_space-plain : (c : ℕ) (s : Text) → IsPlain c → first_space (c ∷ s) ≡ 0
unfolding first_space
first_space-plain c [] h = ground arith
first_space-plain c (b ∷ []) h = ground arith
first_space-plain c (b ∷ d ∷ s) h = ground arith

last_space-plain : (c : ℕ) (s : Text) → IsPlain c → last_space (c ∷ s) ≡ 0
unfolding last_space
last_space-plain c [] h = ground arith
last_space-plain c (b ∷ []) h = ground arith
last_space-plain c (b ∷ d ∷ s) h = ground arith

drop_none :
    (width : Text → ℕ)
    → ((c : ℕ) (s : Text) → IsPlain c → width (c ∷ s) ≡ 0)
    → (s : Text) → All IsPlain s
    → drop_spaces width 0 s ≡ s
unfolding drop_spaces
drop_none width none_at [] h = refl
drop_none width none_at (c ∷ s) h = rw (none_at c s h.0, drop_spaces)

All-reverse : (P : ℕ → Type 0) (s : Text) → All P s → All P (reverse s)
All-reverse P [] h = tt
All-reverse P (c ∷ s) h =
    rw reverse-cons (All-append P (reverse s) (c ∷ []) (All-reverse P s h.1) (h.0, tt))

pub trim_space_plain : (s : Text) → All IsPlain s → trim_space s ≡ s
unfolding trim_space
trim_space_plain s h = rw (drop_none first_space first_space-plain s h) (
    ap reverse (drop_none last_space last_space-plain (reverse s) (All-reverse IsPlain s h))
    ∙ reverse-reverse s)
