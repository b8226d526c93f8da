-- ===== src/Text/Cases.antt =====
-- strings.ToLower and strings.ToUpper: a text that is ASCII byte by byte, any other by the tables
-- of package unicode, which are a parameter.
use datn_backend.Prelude.{ℕ, ◌+◌, ◌-◌, ◌&&◌, map, leb, if◌then◌else◌}
use datn_backend.Text.Utf8.{Text}
use datn_backend.Text.Bytes.{is_ascii}

unfoldable pub lower_byte : ℕ → ℕ
lower_byte c = if leb b'A' c && leb c b'Z' then c + 32 else c

unfoldable pub upper_byte : ℕ → ℕ
upper_byte c = if leb b'a' c && leb c b'z' then c - 32 else c

unfoldable pub to_lower : (Text → Text) → Text → Text
unfolding lower_byte
to_lower lower_unicode s = if is_ascii s then map lower_byte s else lower_unicode s

unfoldable pub to_upper : (Text → Text) → Text → Text
unfolding upper_byte
to_upper upper_unicode s = if is_ascii s then map upper_byte s else upper_unicode s
