-- ===== src/Http/AlertHandler.antt =====
-- alert_handler.go.
use datn_backend.Prelude.{none, some, Option, List, [], ◌∷◌}
use datn_backend.Text.{Text, utf8}
use datn_backend.Domain.{Time}
use datn_backend.Domain.Alerts.{Alert}
use datn_backend.World.{Env}
use datn_backend.Alerts.{list_alerts}
use datn_backend.Http.Json.{Json, Items, obj, arr, end, nil, cons, text_field, Codec}
use datn_backend.Http.Replies.{Handler, write_json, answer}
use datn_backend.Http.Middleware.{user_id_from_context, with_value}
use datn_backend.Http.AuthHandler.{invalid_input_error}

-- The zero time.Time is formatted as the first instant of the year 1.
abbrev formatted : Codec → Option Time → Text
formatted codec none = utf8 "0001-01-01T00:00:00Z"
formatted codec (some t) = codec.format_time t

module _ (codec : Codec) where
  unfoldable pub to_alert_response : Alert → Json
  to_alert_response alert = obj (
      text_field (utf8 "id") alert.id (
        text_field (utf8 "pc_agent_id") alert.agent_id (
          text_field (utf8 "pc_name") alert.agent_name (
            text_field (utf8 "alert_type") alert.type (
              text_field (utf8 "message") alert.message
                (text_field (utf8 "triggered_at") (formatted codec alert.created_at) end))))))

  unfoldable pub alert_items : List Alert → Items
  unfolding to_alert_response
  alert_items [] = nil
  alert_items (alert ∷ alerts) = cons (to_alert_response alert) (alert_items alerts)

unfoldable pub handle_list : Env → Codec → Handler
unfolding list_alerts alert_items user_id_from_context
handle_list env codec request =
    with_value (utf8 "missing_user_id") (user_id_from_context request) λ user_id.
      answer invalid_input_error (λ alerts. write_json 200 (arr (alert_items codec alerts)))
        (list_alerts env user_id)
