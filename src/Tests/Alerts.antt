-- ===== src/Tests/Alerts.antt =====
-- Alerts, their notifications and the commands of a server without a broker at concrete inputs.
use datn_backend.Alerts.Texts.{alert_message}
use datn_backend.Prelude.Tables.{order_by, find, newest, select}
use datn_backend.Repo.Alerts.{insert_row, join_agents}
use datn_backend.Alerts.{unless_recent, CreateAlertFromAgentInput, create_alert_from_agent}
use datn_backend.Text.{to_lower, utf8, trim_space, is_empty}
use datn_backend.Prelude.{◌*◌, ◌≡◌, refl, ◌+◌, if◌then◌else◌, ◌⊎◌, true, none, some, [], ◌∷◌}
use datn_backend.Prelude.Int.{pos}
use datn_backend.Domain.{second}
use datn_backend.Errors.{ok}
use datn_backend.Notification.{fcm, mock_sender}
use datn_backend.Notification.Fcm.{send_alert}
use datn_backend.Notification.Fcm.Calls.{Google, Run, rsa_key, new_fcm_sender}
use datn_backend.Notification.Fcm.Access.{access_token}
use datn_backend.Notification.Fcm.Reports.{Unsent, Sent, send_alert-IsFaithful}
use datn_backend.Alerts.Delivery.{Created}
use datn_backend.Alerts.Duplicates.{create_alert_once}
use datn_backend.Config.{Config, load}
use datn_backend.Mqtt.Commands.{publish_protection_command}
use datn_backend.Server.{new_protection_command_publisher}
use datn_backend.Tests.Environment.{env}
use datn_backend.Tests.Server.{w, device, with_device, network}

abbrev input : CreateAlertFromAgentInput
input = record {
  pc_agent_id = utf8 " a1";
  alert_type = utf8 "MOTION";
  message = [];
  triggered_at = some (9 * second);
}

abbrev created : Created
created = record {
  alert = record {
    id = 18 ∷ [];
    agent_id = utf8 "a1";
    agent_name = [];
    user_id = utf8 "u1";
    type = utf8 "motion_detected";
    message = utf8 "Phát hiện rung lắc hoặc di chuyển bất thường.";
    created_at = some (9 * second);
  };
  failure = [];
}

creates : (create_alert_from_agent env (some mock_sender) input with_device).0 ≡ ok created
unfolding create_alert_from_agent trim_space mock_sender to_lower find unless_recent newest select
    join_agents insert_row order_by alert_message datn_backend.Domain.Alerts.alert_message
creates = refl

-- The alert is delivered again a while later.
create_alert_once_example :
    (create_alert_from_agent env
      (some mock_sender)
      input
      (record (create_alert_from_agent env (some mock_sender) input with_device).1 {
        steps = 90;
      })).1.db
    ≡ (create_alert_from_agent env (some mock_sender) input with_device).1.db
create_alert_once_example =
    create_alert_once env (some mock_sender) input (9 * second) refl with_device created 90 creates

-- Google accepts the service account, and answers each message with a code.
abbrev google : Google
google = record {
  clock = λ n. (n + 1) * second;
  read_file = λ n file. some [];
  http_do = λ n request.
      some
        (record { status_code = if is_empty request.authorization then 200 else 404; body = [] });
  marshal = λ json. [];
  decode_service_account = λ content. some (record {
    project_id = utf8 "datn";
    client_email = utf8 "datn@example.org";
    private_key = utf8 "key";
    token_uri = [];
  });
  decode_token_response = λ body.
      some (record {
        access_token = utf8 "oauth";
        expires_in = pos 3600;
        error = [];
        description = [];
      });
  decode_error_codes = λ body. some ([] ∷ utf8 "unregistered" ∷ []);
  format_rfc3339 = λ t. t ∷ [];
  path_escape = λ s. s;
  encode_form = λ grant_type assertion. assertion;
  pem_decode = λ s. some s;
  parse_pkcs8_private_key = λ s. some (rsa_key s);
  sha256 = λ s. s;
  sign_pkcs1v15 = λ n key digest. some digest;
}

abbrev run : Run
run = record { sender = new_fcm_sender (utf8 "account.json") []; steps = 0 }

send_alert-IsFaithful_example :
    Unsent google (access_token google run).0 (send_alert google created.alert (device ∷ []) run).0
    ⊎ Sent google created.alert
        (device ∷ [])
        (access_token google run)
        (send_alert google created.alert (device ∷ []) run).0
send_alert-IsFaithful_example = send_alert-IsFaithful google created.alert (device ∷ []) run

-- The token of the device is reported as invalid.
reports_invalid :
    (send_alert google created.alert (device ∷ []) run).0.0.failed
    ≡ record {
      token = utf8 "t1";
      error =
          some (fcm (record { status_code = 404; body = []; error_code = utf8 "unregistered" }));
      invalid_token = true;
    }
      ∷ []
unfolding send_alert new_fcm_sender trim_space
reports_invalid = refl

abbrev config : Config
config = load (record { getenv = λ key. []; parse_duration = λ s. none })

-- Without a broker a command is published by a nil pointer, which is a panic.
panics :
    publish_protection_command env network
      (λ payload. [])
      (new_protection_command_publisher config)
      (utf8 "a1")
      true
      w
    ≡ none
unfolding publish_protection_command new_protection_command_publisher load trim_space
panics = refl
