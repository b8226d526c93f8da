-- ===== src/Domain/Alerts.antt =====
-- internal/domain/alert.go, and a row of the table alerts.
use datn_backend.Prelude.{ℕ, Bool, ◌||◌, if◌then◌else◌, Option}
use datn_backend.Text.{Text, utf8, text_eq}

pub record Alert : Type 0 where
  pub id : Text
  pub agent_id : Text
  pub agent_name : Text
  pub user_id : Text
  pub type : Text
  pub message : Text
  -- The zero time.Time is none.
  pub created_at : Option ℕ

-- internal/database/migrations/00001_init_schema.sql.
pub record AlertRow : Type 0 where
  pub id : Text
  pub pc_agent_id : Text
  pub alert_type : Text
  pub triggered_at : ℕ

abbrev pub usb_removed : Text
usb_removed = utf8 "usb_removed"

abbrev pub motion_detected : Text
motion_detected = utf8 "motion_detected"

abbrev pub pc_agent_disconnected : Text
pc_agent_disconnected = utf8 "pc_agent_disconnected"

unfoldable pub alert_title : Text → Text
alert_title t =
    if text_eq t motion_detected
    then utf8 "Phát hiện rung lắc"
    else if text_eq t pc_agent_disconnected
    then utf8 "Mất kết nối đột ngột"
    else if text_eq t usb_removed
    then utf8 "Thiết bị bị ngắt kết nối"
    else utf8 "Cảnh báo mới"

unfoldable pub is_known_alert_type : Text → Bool
is_known_alert_type t =
    text_eq t motion_detected || text_eq t pc_agent_disconnected || text_eq t usb_removed

unfoldable pub alert_message : Text → Text
alert_message t =
    if text_eq t motion_detected
    then utf8 "Phát hiện rung lắc hoặc di chuyển bất thường."
    else if text_eq t pc_agent_disconnected
    then utf8 "PC Agent đã mất kết nối đột ngột với hệ thống."
    else if text_eq t usb_removed
    then utf8 "Thiết bị bảo vệ đã bị ngắt kết nối."
    else utf8 "Phát hiện cảnh báo mới từ thiết bị."
