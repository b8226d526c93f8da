-- ===== src/Notification/Fcm.antt =====
-- internal/notification/fcm_sender.go: FCMSender.
pub mod Calls
pub mod Access
pub mod Reports
use datn_backend.Prelude.{
  ℕ, zero, suc, ◌==◌, ◌+◌, ◌/◌, Bool, true, false, not, ◌||◌, ◌&&◌, Option, none, some, List, [],
  ◌∷◌, ◌++◌, map, ltb, leb, take, length, if◌then◌else◌,
}
use datn_backend.Text.{Text, utf8, text_eq, trim_space, is_empty, lower_byte}
use datn_backend.Domain.{Time}
use datn_backend.Domain.Alerts.{Alert, alert_title, alert_message, is_known_alert_type}
use datn_backend.Domain.Pairing.{MobileDevice}
use datn_backend.Notification.{
  FcmError, NotificationError, fcm, other, Joined, SendFailure, SendReport, Sender,
}
use datn_backend.Notification.Fcm.Calls.{
  Google, HttpRequest, HttpResponse, FcmSender, Run, Call, Outcome, done, failed, ◌>>=◌, give, fail,
  is_success,
}
use datn_backend.Notification.Fcm.Access.{call_http, access_token}
use datn_backend.Json.{Json, Fields, str, boolean, obj, field, end, text_field}

abbrev pub alert_notification_channel_id : Text
alert_notification_channel_id = utf8 "security_alerts"

-- The body of the notification.
unfoldable pub body_of : Alert → Text
body_of alert =
    let body = trim_space alert.message in
    if is_known_alert_type alert.type
    then alert_message alert.type
    else if is_empty body
    then alert_message alert.type
    else body

-- The zero time.Time is formatted as the first instant of the year 1.
abbrev formatted : Google → Option Time → Text
formatted google none = utf8 "0001-01-01T00:00:00Z"
formatted google (some t) = google.format_rfc3339 t

-- The payload of the request; encoding/json writes the keys of a map in their order.
unfoldable pub payload_of : Google → Alert → Text → Json
unfolding body_of
payload_of google alert token =
    let channel = text_field (utf8 "channel_id") alert_notification_channel_id (
      field (utf8 "default_sound") (boolean true) (
        field (utf8 "default_vibrate_timings") (boolean true)
          (text_field (utf8 "notification_priority") (utf8 "PRIORITY_HIGH") end))) in
    let android =
      field (utf8 "notification") (obj channel) (text_field (utf8 "priority") (utf8 "HIGH") end) in
    let facts = text_field (utf8 "alert_id") alert.id (
      text_field (utf8 "alert_type") alert.type (
        text_field (utf8 "pc_agent_id") alert.agent_id
          (text_field (utf8 "triggered_at") (formatted google alert.created_at) end))) in
    let notification =
      text_field (utf8 "body") (body_of alert)
        (text_field (utf8 "title") (alert_title alert.type) end) in
    obj (
      field (utf8 "message")
        (obj (
          field (utf8 "android") (obj android) (
            field (utf8 "data") (obj facts) (
              field (utf8 "notification") (obj notification)
                (text_field (utf8 "token") token end)))))
        end)

-- The first code that is not blank.
unfoldable pub first_code : List Text → Text
first_code [] = []
first_code (code ∷ codes) =
    let trimmed = trim_space code in
    let rest = first_code codes in if is_empty trimmed then rest else trimmed

abbrev codes_of : Option (List Text) → List Text
codes_of none = []
codes_of (some codes) = codes

unfoldable pub parse_fcm_error_code : Google → Text → Text
unfolding first_code
parse_fcm_error_code google body = first_code (codes_of (google.decode_error_codes body))

-- strings.EqualFold against a text in ASCII: the letters that are not ASCII and fold to one are the
-- long s, U+017F, and the Kelvin sign, U+212A.
abbrev is_long_s : ℕ → Text → Bool
is_long_s a [] = false
is_long_s a (b ∷ s) = a == 0xc5 && b == 0xbf

abbrev is_kelvin : ℕ → Text → Bool
is_kelvin a [] = false
is_kelvin a (b ∷ []) = false
is_kelvin a (b ∷ c ∷ s) = a == 0xe2 && b == 0x84 && c == 0xaa

abbrev folded_rune : ℕ → Text → ℕ
folded_rune a s = if is_long_s a s then b's' else if is_kelvin a s then b'k' else lower_byte a

fold_from : ℕ → Text → Text
unfolding lower_byte
fold_from skip [] = []
fold_from (suc skip) (a ∷ s) = fold_from skip s
fold_from zero (a ∷ s) =
    folded_rune a s ∷ fold_from (if is_long_s a s then 1 else if is_kelvin a s then 2 else 0) s

unfoldable pub equal_fold : Text → Text → Bool
unfolding fold_from
equal_fold s ascii = text_eq (fold_from 0 s) (map lower_byte ascii)

unfoldable pub is_invalid_fcm_token_error : NotificationError → Bool
unfolding equal_fold
is_invalid_fcm_token_error (fcm e) = equal_fold e.error_code (utf8 "UNREGISTERED")
is_invalid_fcm_token_error (other message) = false

-- The error of a response; io.LimitReader cuts its body.
abbrev pub response_limit : ℕ
response_limit = 4096

abbrev pub fcm_error_of : Google → HttpResponse → FcmError
fcm_error_of google response =
    let body = take response_limit response.body in
    record {
      status_code = response.status_code;
      body = trim_space body;
      error_code = parse_fcm_error_code google body;
    }

module _ (google : Google) where
  abbrev pub check_response : HttpResponse → Call (Unit {0})
  check_response response =
      if is_success response.status_code then give tt else fail (fcm (fcm_error_of google response))

  abbrev pub request_of : Text → Text → Alert → Text → HttpRequest
  request_of token_of_oauth project_id alert token = record {
    url =
        utf8 "https://fcm.googleapis.com/v1/projects/"
        ++ (google.path_escape project_id ++ utf8 "/messages:send");
    authorization = utf8 "Bearer " ++ token_of_oauth;
    content_type = utf8 "application/json";
    body = google.marshal (payload_of google alert token);
  }

  unfoldable pub send_to_token : Text → Text → Alert → Text → Call (Unit {0})
  unfolding payload_of parse_fcm_error_code
  send_to_token token_of_oauth project_id alert token =
      call_http google (request_of token_of_oauth project_id alert token) >>= check_response

  abbrev pub failure_of : Text → NotificationError → SendFailure
  failure_of token e = record {
    token = token;
    error = some e;
    invalid_token = is_invalid_fcm_token_error e;
  }

  -- The first device's part of the report, before those of the others.
  abbrev pub add_outcome : Text → Outcome (Unit {0}) → SendReport → SendReport
  add_outcome token (done sent) report = record report {
    targeted = report.targeted + 1;
    sent = report.sent + 1;
  }
  add_outcome token (failed e) report = record report {
    targeted = report.targeted + 1;
    failed = failure_of token e ∷ report.failed;
  }

  abbrev pub empty_report : SendReport
  empty_report = record { targeted = 0; sent = 0; failed = [] }

  -- One device, and then the others.
  abbrev pub send_one :
      (Run → SendReport × Run) → Text → Outcome (Unit {0}) × Run → SendReport × Run
  send_one rest token (outcome, run) =
      let (report, run') = rest run in (add_outcome token outcome report, run')

  unfoldable pub send_all : Text → Text → Alert → List MobileDevice → Run → SendReport × Run
  unfolding send_to_token is_invalid_fcm_token_error
  send_all token_of_oauth project_id alert [] run = (empty_report, run)
  send_all token_of_oauth project_id alert (device ∷ devices) run =
      let token = trim_space device.fcm_token in
      let rest = send_all token_of_oauth project_id alert devices in
      if is_empty token
      then rest run
      else send_one rest token (send_to_token token_of_oauth project_id alert token run)

  abbrev pub errors_of : List SendFailure → Joined
  errors_of [] = []
  errors_of (failure ∷ failures) = elim failure.error [
    | none ↦ errors_of failures
    | some e ↦ e ∷ errors_of failures
  ]

  -- errors.Join of the errors of the sends.
  abbrev pub joined : SendReport × Run → (SendReport × Joined) × Run
  joined (report, run) = ((report, errors_of report.failed), run)

  abbrev pub send_with :
      Alert → List MobileDevice → Outcome (Text × Text) × Run → (SendReport × Joined) × Run
  send_with alert devices (failed e, run) = ((empty_report, e ∷ []), run)
  send_with alert devices (done (token_of_oauth, project_id), run) =
      joined (send_all token_of_oauth project_id alert devices run)

  unfoldable pub send_alert : Alert → List MobileDevice → Run → (SendReport × Joined) × Run
  unfolding access_token send_all
  send_alert alert devices run = send_with alert devices (access_token google run)

  -- The sender in the state `s`, as the alert use case calls it.
  unfoldable pub fcm_sender : FcmSender → Sender
  unfolding send_alert
  fcm_sender s n alert devices = (send_alert alert devices (record { sender = s; steps = n })).0
