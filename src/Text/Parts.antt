-- ===== src/Text/Parts.antt =====
-- strings.Trim of one byte, strings.TrimPrefix and strings.Split at one byte, and fmt's %d.
use mathlib.Core.List.{reverse}
use datn_backend.Prelude.{
  ℕ, zero, suc, ◌+◌, ◌/◌, ◌%◌, Option, none, some, List, [], ◌∷◌, ltb, ◌==◌, if◌then◌else◌,
}
use datn_backend.Text.Utf8.{Text}
use datn_backend.Text.Bytes.{cut_prefix}

drop_bytes : ℕ → Text → Text
drop_bytes b [] = []
drop_bytes b (c ∷ s) = let rest = drop_bytes b s in if c == b then rest else c ∷ s

unfoldable pub trim_byte : ℕ → Text → Text
unfolding drop_bytes
trim_byte b s = reverse (drop_bytes b (reverse (drop_bytes b s)))

abbrev or_whole : Text → Option Text → Text
or_whole s none = s
or_whole s (some rest) = rest

unfoldable pub trim_prefix : Text → Text → Text
unfolding cut_prefix
trim_prefix s prefix = or_whole s (cut_prefix s prefix)

abbrev onto_first : ℕ → List Text → List Text
onto_first c [] = (c ∷ []) ∷ []
onto_first c (part ∷ parts) = (c ∷ part) ∷ parts

unfoldable pub split_at : ℕ → Text → List Text
split_at b [] = [] ∷ []
split_at b (c ∷ s) = let parts = split_at b s in if c == b then [] ∷ parts else onto_first c parts

-- parts[len(parts)-1], where there is one.
unfoldable pub last_part : List Text → Text
last_part [] = []
last_part (part ∷ []) = part
last_part (part ∷ other ∷ parts) = last_part (other ∷ parts)

decimal_digits : ℕ → ℕ → Text → Text
decimal_digits zero n acc = acc
decimal_digits (suc fuel) n acc =
    let digits = (b'0' + n % 10) ∷ acc in
    let more = decimal_digits fuel (n / 10) digits in if ltb n 10 then digits else more

-- A number has fewer digits than the fuel, since each round divides by ten.
unfoldable pub decimal : ℕ → Text
unfolding decimal_digits
decimal n = decimal_digits (suc n) n []
