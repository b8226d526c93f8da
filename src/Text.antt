-- ===== src/Text.antt =====
-- Go strings as their bytes, and the functions of package strings that the program calls.
-- Literals are encoded in UTF-8, as the Go compiler does.
mod Utf8
mod Bytes
mod Cases
pub mod Spaces
pub mod Parts
pub mod Base64
pub use Utf8.{Text, utf8}
pub use Bytes.{text_eq, text_eq_iff, text_eq_refl, is_empty, is_digit, is_ascii}
unfoldable pub use Bytes.{cut_prefix, contains}
unfoldable pub use Cases.{lower_byte, upper_byte, to_lower, to_upper}
unfoldable pub use Spaces.{trim_space}
