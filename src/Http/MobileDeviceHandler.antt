-- ===== src/Http/MobileDeviceHandler.antt =====
-- mobile_device_handler.go.
use datn_backend.Prelude.{[], ◌∷◌}
use datn_backend.Text.{utf8}
use datn_backend.Domain.Pairing.{MobileDevice}
use datn_backend.World.{Env}
use datn_backend.Pairing.Devices.{register_mobile_device}
use datn_backend.Http.Json.{Json, obj, end, text_field, Codec}
use datn_backend.Http.Replies.{Handler, write_json, decode_json, answer}
use datn_backend.Http.Middleware.{user_id_from_context, with_value}
use datn_backend.Http.AuthHandler.{invalid_input_error}

unfoldable pub to_mobile_device_response : MobileDevice → Json
to_mobile_device_response device =
    obj (text_field (utf8 "id") device.id (text_field (utf8 "platform") device.platform end))

unfoldable pub handle_register : Env → Codec → Handler
unfolding decode_json register_mobile_device to_mobile_device_response user_id_from_context
handle_register env codec request =
    with_value (utf8 "missing_user_id") (user_id_from_context request) λ user_id.
      decode_json codec (utf8 "fcm_token" ∷ utf8 "platform" ∷ []) [] request λ fields.
        answer invalid_input_error (λ device. write_json 200 (to_mobile_device_response device))
          (register_mobile_device env user_id (fields.text (utf8 "fcm_token"))
            (fields.text (utf8 "platform")))
