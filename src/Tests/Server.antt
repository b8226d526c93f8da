-- ===== src/Tests/Server.antt =====
-- The server, the subscriber and the removal of tokens at concrete inputs.
use datn_backend.Mqtt.Publish.{parse_publish}
use datn_backend.Mqtt.Lengths.{encode_digits}
use datn_backend.Mqtt.Lengths.{encode_remaining_length}
use datn_backend.Mqtt.Lengths.{read_digits}
use datn_backend.Mqtt.Lengths.{read_remaining_length}
use datn_backend.Prelude.Tables.{order_by, newest, any, find, select, delete}
use datn_backend.Repo.Alerts.{insert_row, join_agents}
use datn_backend.Alerts.{unless_recent}
use datn_backend.Auth.Inputs.{normalize_phone_number}
use datn_backend.Http.AuthHandler.{handle_login}
use datn_backend.Text.{Text, to_lower, trim_space, utf8, text_eq}
use datn_backend.Prelude.{
  ℕ, List, arith, length, if◌then◌else◌, ◌≡◌, refl, true, false, none, some, [], ◌∷◌, ◌++◌,
}
use datn_backend.Domain.Pairing.{MobileDevice}
use datn_backend.Errors.{ok}
use datn_backend.World.{World, empty_db}
use datn_backend.Notification.{SendFailure, mock_sender}
use datn_backend.Alerts.Delivery.{is_non_invalid, cleanup_invalid_notification_tokens}
use datn_backend.Alerts.Cleanup.{is_reported, cleanup-eq-delete}
use datn_backend.Alerts.Invariants.{HasSpacedAlerts}
use datn_backend.Mqtt.Lengths.{
  Bytes, encode_remaining_length, encode_digits, read_remaining_length, read_digits,
}
use datn_backend.Mqtt.Packets.{Packet, uint16, write_utf, write_packet}
use datn_backend.Mqtt.Publish.{Published, parse_publish, connect_packet, subscribe_packet}
use datn_backend.Mqtt.Connection.{
  Stream, silent, Network, Client, conn_of, returns, waits, ◌>>◌, connect, subscribe, run_once,
}
use datn_backend.Mqtt.Connection.Messages.{bytes_of, acknowledgements, handled}
use datn_backend.Mqtt.Connection.Delivery.{run_once_delivers}
use datn_backend.Server.{MqttAlertPayload, handle_mqtt_alert}
use datn_backend.Server.Steps.{Process, Step, here, next}
use datn_backend.Server.Invariants.{Reach-HasSpacedAlerts}
use datn_backend.Server.Ledger.{Reach-Run}
use datn_backend.Auth.Ledger.{Run, ledger_of}
use datn_backend.Http.Router.{Route, serve}
use datn_backend.Tests.Environment.{env}
use datn_backend.Tests.Auth.{uc, user, phone, password}
use datn_backend.Http.Json.{Codec}
use datn_backend.Http.Replies.{Request}
use datn_backend.Tests.Pairing.{agent}
use datn_backend.Tests.Http.{codec}

-- Every body carries the phone number and the password.
abbrev login_codec : Codec
login_codec = record codec {
  decode = λ texts flags body. some (record {
    text = λ name. if text_eq name (utf8 "phone_number") then phone else password;
    flag = λ name. false;
  });
}

abbrev shaken : MqttAlertPayload
shaken = record {
  pc_agent_id = [];
  device_id = [];
  alert_type = utf8 "motion";
  event_type = [];
  message = [];
  timestamp = none;
}

abbrev pub process : Process
process = record {
  env = env;
  codec = codec;
  auth = uc;
  notifications = some mock_sender;
  payloads = record { alert = λ s. some shaken; status = λ s. none };
}

abbrev pub message : Published
message = record { topic = utf8 "pcapp/alert/a1"; packet_id = []; payload = [] }

abbrev pub w : World
w = record {
  db = record empty_db {
    users = record user { id = utf8 "u1" } ∷ [];
    pc_agents = record agent { id = utf8 "a1"; user_id = utf8 "u1" } ∷ [];
  };
  steps = 16;
}

abbrev handle : World → World
handle v = (handle_mqtt_alert env (some mock_sender) process.payloads message v).1

-- The same alert twice, and once more after some time.
Reach-HasSpacedAlerts_example :
    HasSpacedAlerts (handle (record (handle (handle w)) { steps = 90 })).db
Reach-HasSpacedAlerts_example = Reach-HasSpacedAlerts process {w = w} tt (
    next
      (next (next (next here (Step.alert w message)) (Step.alert (handle w) message))
        (Step.elapse (handle (handle w)) 90))
      (Step.alert (record (handle (handle w)) { steps = 90 }) message))

-- A user logs in, and an alert is received.
abbrev pub login_request : Request
login_request = record {
  header = λ name. [];
  query = λ name. [];
  path_value = λ name. [];
  body = [];
  user_id = none;
  register_phone = none;
}

abbrev v : World
v = (serve env login_codec uc Route.login login_request w).1

Reach-Run_example : Run (ledger_of w.refresh_tokens) (ledger_of (handle v).refresh_tokens)
Reach-Run_example =
    Reach-Run (record process { codec = login_codec }) {w = w}
      (next (next here (Step.http w Route.login login_request)) (Step.alert v message))

-- The login stores a token.
ledger_grows : length (ledger_of (handle v).refresh_tokens) ≡ 1
unfolding serve handle_mqtt_alert trim_space to_lower find handle_login normalize_phone_number any
    unless_recent newest select join_agents insert_row order_by
ledger_grows = refl

-- A broker that accepts the subscriber, sends a message, and stays silent in the middle of a packet.
abbrev packets : List Packet
packets =
    record { packet_type = 13; flags = 0; payload = [] }
    ∷ record {
      packet_type = 3;
      flags = 2;
      payload = write_utf (utf8 "pcapp/alert/a1") ++ (uint16 7 ++ utf8 "{}");
    }
    ∷ []

abbrev rest : Bytes
rest = 48 ∷ 9 ∷ 0 ∷ []

abbrev stream : Stream
stream = record {
  incoming =
      write_packet 2 0 (0 ∷ 0 ∷ [])
      ++ (write_packet 9 0 (0 ∷ 1 ∷ 1 ∷ []) ++ (bytes_of packets ++ rest));
  ending = silent;
}

abbrev pub network : Network
network = record { dial = λ n address. some stream; write_fails = λ n. false }

abbrev client : Client
client = record {
  broker = utf8 "tcp://broker";
  client_id = utf8 "datn";
  username = [];
  password = [];
}

abbrev alerted : Published
alerted = record { topic = utf8 "pcapp/alert/a1"; packet_id = 0 ∷ 7 ∷ []; payload = utf8 "{}" }

abbrev topic_filter : Text
topic_filter = utf8 "pcapp/alert/+"

abbrev opening : Bytes
opening = connect_packet (utf8 "datn") [] [] ++ subscribe_packet topic_filter

accepts :
    (connect env network client >> subscribe env network topic_filter)
      (conn_of stream)
      (record w { steps = 17 })
    ≡ (
      returns tt,
      record { incoming = bytes_of packets ++ rest; written = opening; ending = silent },
      record w { steps = 19 },
    )
unfolding connect subscribe trim_space read_remaining_length read_digits encode_remaining_length
    encode_digits
accepts = refl

-- One alert is handled and acknowledged, and the subscriber waits.
run_once_delivers_example :
    run_once env network
      (handle_mqtt_alert env (some mock_sender) process.payloads)
      client
      topic_filter
      w
    ≡ some (
      waits,
      record {
        incoming = rest;
        written = opening ++ acknowledgements (alerted ∷ []);
        ending = silent;
      },
      handled
          (handle_mqtt_alert env (some mock_sender) process.payloads)
          (alerted ∷ [])
          (record w { steps = 19 }),
    )
unfolding read_remaining_length read_digits parse_publish
run_once_delivers_example =
    run_once_delivers env network (handle_mqtt_alert env (some mock_sender) process.payloads)
      (λ n. refl) client topic_filter w (record w { steps = 19 }) stream packets rest opening silent
      refl accepts
      ((omega arith, omega arith, omega arith), ((omega arith, omega arith, omega arith), tt)) refl

abbrev pub device : MobileDevice
device = record { id = utf8 "m1"; user_id = utf8 "u1"; fcm_token = utf8 "t1"; platform = [] }

abbrev gone : SendFailure
gone = record { token = utf8 " t1 "; error = none; invalid_token = true }

abbrev pub with_device : World
with_device = record w { db = record w.db { mobile_devices = device ∷ [] } }

cleanup-eq-delete_example :
    (count : ℕ) × (steps : ℕ) × (cleanup_invalid_notification_tokens env
        (gone ∷ gone ∷ [])
        with_device
      ≡ (
        ok (count, select is_non_invalid (gone ∷ gone ∷ [])),
        record {
          db = record with_device.db {
            mobile_devices = delete (is_reported (gone ∷ gone ∷ [])) with_device.mobile_devices;
          };
          steps = steps;
        },
      ))
cleanup-eq-delete_example = cleanup-eq-delete env (λ n. refl) (gone ∷ gone ∷ []) with_device
