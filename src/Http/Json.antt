-- ===== src/Http/Json.antt =====
-- What encoding/json and time.Time.Format are asked for by the handlers.
pub use datn_backend.Json.{
  Json, Fields, Items, null, str, int, boolean, obj, arr, end, field, nil, cons, optional,
  text_field, one_field,
}
use datn_backend.Prelude.{Bool, Option, List}
use datn_backend.Text.{Text}
use datn_backend.Domain.{Time}

-- The fields of a request: those that the body does not name are "" and false.
pub record Decoded : Type 0 where
  pub text : Text → Text
  pub flag : Text → Bool

-- `decode` reads a text as one JSON value and nothing after it, into a struct with the string fields
-- of the first list and the bool fields of the second, with DisallowUnknownFields.
-- `format_time` is time.Time.Format("2006-01-02T15:04:05Z07:00").
pub record Codec : Type 0 where
  pub decode : List Text → List Text → Text → Option Decoded
  pub format_time : Time → Text
