-- ===== src/Http/Replies.antt =====
-- response.go, and the requests and replies of the handlers.
use datn_backend.Prelude.{ℕ, ◌^◌, Bool, Option, none, some, List, ltb, length, if◌then◌else◌}
use datn_backend.Text.{Text, utf8}
use datn_backend.Errors.{Error, Result, ok, err}
use datn_backend.World.{World}
use datn_backend.Action.{Action}
use datn_backend.Http.Json.{Json, one_field, Codec, Decoded}

-- A request with its context. A header, a parameter or a path value that is missing is "".
pub record Request : Type 0 where
  pub header : Text → Text
  pub query : Text → Text
  pub path_value : Text → Text
  pub body : Text
  pub user_id : Option Text
  pub register_phone : Option Text

-- The protection command that a handler hands to a goroutine.
pub record Command : Type 0 where
  pub pc_agent_id : Text
  pub enabled : Bool

pub record Reply : Type 0 where
  pub status : ℕ
  pub body : Option Json
  pub command : Option Command

abbrev pub Handler : Type 0
Handler = Request → World → Reply × World

abbrev pub max_request_body_bytes : ℕ
max_request_body_bytes = 2 ^ 20

abbrev pub write_json : ℕ → Json → Reply
write_json status value = record { status = status; body = some value; command = none }

abbrev pub write_error : ℕ → Text → Reply
write_error status code = write_json status (one_field (utf8 "error") code)

abbrev pub write_message_error : ℕ → Text → Reply
write_message_error status message = write_json status (one_field (utf8 "message") message)

abbrev pub write_internal_error : Reply
write_internal_error = write_error 500 (utf8 "internal_error")

abbrev pub invalid_json : Reply
invalid_json = write_error 400 (utf8 "invalid_json")

abbrev on_decoded : Option Decoded → (Decoded → World → Reply × World) → World → Reply × World
on_decoded none f w = (invalid_json, w)
on_decoded (some fields) f w = f fields w

-- A body above the limit of MaxBytesReader is an error of one of the two reads.
unfoldable pub decode_json :
    Codec
    → List Text
    → List Text
    → Request
    → (Decoded → World → Reply × World)
    → World
    → Reply × World
decode_json codec texts flags request f w =
    if ltb max_request_body_bytes (length request.body)
    then (invalid_json, w)
    else on_decoded (codec.decode texts flags request.body) f w

module _ {A : Type 0} where
  abbrev pub reply_of : (Error → Reply) → (A → Reply) → Result A × World → Reply × World
  reply_of on_error on_ok (ok a, w) = (on_ok a, w)
  reply_of on_error on_ok (err e, w) = (on_error e, w)

  -- result, err := …; if err != nil { … return }; …
  abbrev pub answer : (Error → Reply) → (A → Reply) → Action A → World → Reply × World
  answer on_error on_ok m w = reply_of on_error on_ok (m w)
