-- ===== src/Server.antt =====
-- cmd/server/main.go: what main builds from the configuration, and the handlers of MQTT messages.
pub mod Steps
pub mod Keeps
pub mod Invariants
pub mod Ledger
pub mod Sessions
use datn_backend.Prelude.{
  ℕ, Bool, true, false, not, ◌||◌, Option, none, some, List, [], ◌∷◌, ◌++◌, if◌then◌else◌,
}
use datn_backend.Text.{Text, utf8, text_eq, trim_space, to_lower, is_empty}
use datn_backend.Text.Parts.{trim_byte, split_at, last_part}
use datn_backend.Domain.{Time}
use datn_backend.Domain.Alerts.{pc_agent_disconnected}
use datn_backend.Errors.{Error, invalid_payload, notification_failed}
use datn_backend.World.{World, Env}
use datn_backend.Action.{Action, pure, raise, lift, from_option, guard, ◌>>=◌, ◌>>◌}
use datn_backend.Config.{Config}
use datn_backend.Token.{Service}
use datn_backend.Auth.Setup.{AuthUseCase, new_auth_use_case}
use datn_backend.Notification.{Sender, mock_sender}
use datn_backend.Alerts.{CreateAlertFromAgentInput, create_alert_from_agent}
use datn_backend.Alerts.Delivery.{Created, is_nil}
use datn_backend.Mqtt.Lengths.{Bytes}
use datn_backend.Mqtt.Publish.{Published}
use datn_backend.Mqtt.Connection.{Client}

pub record MqttAlertPayload : Type 0 where
  pub pc_agent_id : Text
  pub device_id : Text
  pub alert_type : Text
  pub event_type : Text
  pub message : Text
  -- The zero time.Time is none.
  pub timestamp : Option Time

pub record MqttStatusPayload : Type 0 where
  pub pc_agent_id : Text
  pub status : Text
  pub reason : Text
  pub timestamp : Option Time

-- json.Unmarshal into the two structs.
pub record Payloads : Type 0 where
  pub alert : Bytes → Option MqttAlertPayload
  pub status : Bytes → Option MqttStatusPayload

unfoldable pub topic_tail : Text → Text
unfolding trim_byte split_at last_part
topic_tail topic =
    let trimmed = trim_byte b'/' (trim_space topic) in
    if is_empty trimmed then [] else last_part (split_at b'/' trimmed)

-- The identifier of the payload, or that of the topic.
abbrev pub agent_of : Text → Text → Text
agent_of id_input topic =
    let pc_agent_id = trim_space id_input in
    if is_empty pc_agent_id then topic_tail topic else pc_agent_id

-- if alertType == "" { alertType = payload.EventType }
abbrev pub type_of : MqttAlertPayload → Text
type_of payload =
    let alert_type = trim_space payload.alert_type in
    if is_empty alert_type then payload.event_type else alert_type

-- The handlers return the error beside the alert, if there is one.
abbrev pub no_failure : Created → Action (Unit {0})
no_failure created = guard (is_nil created.failure) notification_failed

module _ (env : Env) (notifications : Option Sender) (payloads : Payloads) where
  unfoldable pub handle_mqtt_alert : Published → Action (Unit {0})
  unfolding topic_tail create_alert_from_agent
  handle_mqtt_alert message = do
    payload ← lift (from_option invalid_payload (payloads.alert message.payload))
    created ← create_alert_from_agent env notifications (record {
      pc_agent_id = agent_of payload.pc_agent_id message.topic;
      alert_type = type_of payload;
      message = payload.message;
      triggered_at = payload.timestamp;
    })
    no_failure created

  abbrev is_disconnect : MqttStatusPayload → Bool
  is_disconnect payload = not (
      not (text_eq (trim_space (to_lower env.lower_unicode payload.status)) (utf8 "inactive"))
      || not (
          text_eq (trim_space (to_lower env.lower_unicode payload.reason))
            (utf8 "unexpected_disconnect")))

  abbrev pub disconnect_input : MqttStatusPayload → Text → CreateAlertFromAgentInput
  disconnect_input payload topic = record {
    pc_agent_id = agent_of payload.pc_agent_id topic;
    alert_type = pc_agent_disconnected;
    message = utf8 "PC Agent mat ket noi dot ngot.";
    triggered_at = payload.timestamp;
  }

  unfoldable pub on_status : Text → MqttStatusPayload → Action (Unit {0})
  unfolding topic_tail create_alert_from_agent
  on_status topic payload =
      if is_disconnect payload
      then create_alert_from_agent env notifications (disconnect_input payload topic) >>= no_failure
      else pure tt

  unfoldable pub handle_mqtt_status : Published → Action (Unit {0})
  unfolding on_status
  handle_mqtt_status message =
      lift (from_option invalid_payload (payloads.status message.payload))
      >>= on_status message.topic

-- What main builds.
unfoldable pub token_service : Config → Service
token_service cfg = record {
  secret = cfg.jwt_secret;
  issuer = cfg.jwt_issuer;
  audience = cfg.jwt_audience;
  access_ttl = cfg.access_token_ttl;
}

unfoldable pub auth_use_case : Config → AuthUseCase
unfolding token_service new_auth_use_case
auth_use_case cfg = new_auth_use_case (token_service cfg) cfg.refresh_token_ttl

-- `fcm_sender` makes the FCM sender of a file and a project.
unfoldable pub new_notification_sender : (Text → Text → Sender) → Config → Sender
unfolding mock_sender
new_notification_sender fcm_sender cfg =
    if is_empty (trim_space cfg.fcm_service_account_file)
    then mock_sender
    else fcm_sender cfg.fcm_service_account_file cfg.fcm_project_id

abbrev pub mqtt_client : Config → Text → Client
mqtt_client cfg client_id = record {
  broker = cfg.mqtt_broker;
  client_id = client_id;
  username = cfg.mqtt_username;
  password = cfg.mqtt_password;
}

-- A nil pointer where there is no broker.
unfoldable pub new_protection_command_publisher : Config → Option Client
new_protection_command_publisher cfg =
    if is_empty (trim_space cfg.mqtt_broker)
    then none
    else some (mqtt_client cfg cfg.mqtt_client_id)

unfoldable pub mqtt_subscriber_client_id : Text → Text → Text
mqtt_subscriber_client_id raw suffix =
    let base = trim_space raw in if is_empty base then [] else base ++ (utf8 "-" ++ suffix)

-- A subscriber: its client, its topic filter, and whether it handles alerts or statuses.
pub data Kind : Type 0 where
  alerts statuses : Kind

pub record Subscription : Type 0 where
  pub client : Client
  pub topic_filter : Text
  pub kind : Kind

-- startMQTTTopicSubscriber: none for an empty topic.
unfoldable pub start_mqtt_topic_subscriber : Config → Text → Text → Kind → List Subscription
unfolding mqtt_subscriber_client_id
start_mqtt_topic_subscriber cfg name topic kind =
    if is_empty (trim_space topic)
    then []
    else (record {
      client = mqtt_client cfg (mqtt_subscriber_client_id cfg.mqtt_client_id name);
      topic_filter = topic;
      kind = kind;
    })
      ∷ []

unfoldable pub start_mqtt_subscriber : Config → List Subscription
unfolding start_mqtt_topic_subscriber
start_mqtt_subscriber cfg =
    if is_empty (trim_space cfg.mqtt_broker)
    then []
    else start_mqtt_topic_subscriber cfg (utf8 "alert") cfg.mqtt_alert_topic alerts
      ++ start_mqtt_topic_subscriber cfg (utf8 "status") cfg.mqtt_status_topic statuses
