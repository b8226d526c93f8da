-- ===== src/Alerts/Texts.antt =====
-- The types and messages of internal/usecase/alert_usecase.go.
use datn_backend.Prelude.{◌||◌, ◌&&◌, not, if◌then◌else◌}
use datn_backend.Text.{Text, utf8, text_eq, trim_space, to_lower, is_empty}
use datn_backend.Domain.Alerts
use datn_backend.Domain.Alerts.{
  motion_detected, usb_removed, pc_agent_disconnected, is_known_alert_type,
}
use datn_backend.World.{Env}

-- The switch on the trimmed lower-case type.
unfoldable pub canonical_type : Text → Text
canonical_type t =
    if text_eq t (utf8 "motion")
      || text_eq t (utf8 "motion_alert")
      || text_eq t (utf8 "motion_detected")
    then motion_detected
    else if text_eq t (utf8 "usb_removed") || text_eq t (utf8 "usb_disconnected")
    then usb_removed
    else if text_eq t (utf8 "pc_agent_disconnected")
        || text_eq t (utf8 "agent_disconnected")
        || text_eq t (utf8 "unexpected_disconnect")
    then pc_agent_disconnected
    else t

unfoldable pub normalize_alert_type : Env → Text → Text
unfolding canonical_type
normalize_alert_type env alert_type =
    canonical_type (trim_space (to_lower env.lower_unicode alert_type))

unfoldable pub alert_message : Text → Text → Text
alert_message alert_type fallback =
    let trimmed = trim_space fallback in
    if not (is_empty trimmed) && not (is_known_alert_type alert_type)
    then trimmed
    else Alerts.alert_message alert_type
