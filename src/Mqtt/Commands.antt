-- ===== src/Mqtt/Commands.antt =====
-- publisher.go: ProtectionCommandPublisher.
use datn_backend.Prelude.{ℕ, ◌+◌, Bool, Option, none, some, [], ◌++◌, ◌||◌, if◌then◌else◌}
use datn_backend.Text.{Text, utf8, trim_space, is_empty}
use datn_backend.Text.Parts.{decimal}
use datn_backend.Domain.{Time}
use datn_backend.Errors.{network_failed}
use datn_backend.World.{World, Env}
use datn_backend.Mqtt.Lengths.{Bytes}
use datn_backend.Mqtt.Packets.{write_packet}
use datn_backend.Mqtt.Publish.{publish_packet, is_puback}
use datn_backend.Mqtt.Connection.{
  Stream, Network, Conn, conn_of, Progress, returns, fails, waits, Io, Client, ◌>>=◌, ◌>>◌, expect,
  next_packet, write, connect, broker_address, empty_conn,
}

abbrev pub set_protection : Text
set_protection = utf8 "set_protection"

pub record ProtectionCommandPayload : Type 0 where
  pub pc_agent_id : Text
  pub command : Text
  pub enabled : Bool
  pub timestamp : Time

unfoldable pub control_topic : Text → Text
control_topic pc_agent_id = utf8 "pcapp/control/" ++ trim_space pc_agent_id

-- fmt.Sprintf("%s-control-%d", base, time.Now().UnixNano())
unfoldable pub publisher_client_id : Text → ℕ → Text
unfolding decimal
publisher_client_id raw nano =
    let base = trim_space raw in
    (if is_empty base then utf8 "datn-backend" else base) ++ (utf8 "-control-" ++ decimal nano)

-- The error of the last packet is dropped.
abbrev pub regardless : Io (Unit {0}) → Io (Unit {0})
regardless m c w = let (r, c', w') = m c w in (returns tt, c', w')

-- A read with a deadline does not wait for ever.
abbrev pub expired : {A : Type 0} → Progress A × Conn × World → Progress A × Conn × World
expired (returns a, c, w) = (returns a, c, w)
expired (fails e, c, w) = (fails e, c, w)
expired (waits, c, w) = (fails network_failed, c, w)

abbrev pub within_deadline : {A : Type 0} → Io A → Io A
within_deadline m c w = expired (m c w)

module _ (env : Env) (network : Network) where
  unfoldable pub publish_qos1 : Text → Bytes → Io (Unit {0})
  unfolding write
  publish_qos1 topic payload = do
    write env network (publish_packet topic payload)
    response ← within_deadline next_packet
    expect (is_puback response)

  abbrev pub dialed :
      Client → Text → Bytes → Option Stream → World → Progress (Unit {0}) × Conn × World
  dialed client topic payload none w = (fails network_failed, empty_conn, w)
  dialed client topic payload (some stream) w =
      (connect env network client
          >> publish_qos1 topic payload
          >> regardless (write env network (write_packet 14 0 [])))
        (conn_of stream) w

  unfoldable pub publish : Client → Text → Bytes → World → Progress (Unit {0}) × Conn × World
  unfolding publish_qos1 connect broker_address publisher_client_id
  publish p topic payload w =
      if is_empty (trim_space p.broker) || is_empty (trim_space topic)
      then (fails network_failed, empty_conn, w)
      else dialed
          (record p { client_id = publisher_client_id p.client_id (env.clock (w.steps + 1)) }) topic
          payload (network.dial w.steps (broker_address p.broker))
          (record w { steps = w.steps + 2 })

  -- A nil publisher is dereferenced by Publish: `none` is the panic.
  abbrev pub publish_by :
      Option Client → Text → Bytes → World → Option (Progress (Unit {0}) × Conn × World)
  publish_by none topic payload w = none
  publish_by (some p) topic payload w = some (publish p topic payload w)

  -- `marshal` is json.Marshal of the payload.
  unfoldable pub publish_protection_command :
      (ProtectionCommandPayload → Bytes)
      → Option Client
      → Text
      → Bool
      → World
      → Option (Progress (Unit {0}) × Conn × World)
  unfolding publish control_topic
  publish_protection_command marshal p id_input on w =
      let pc_agent_id = trim_space id_input in
      if is_empty pc_agent_id
      then some (fails network_failed, empty_conn, w)
      else publish_by p (control_topic pc_agent_id)
          (marshal (record {
            pc_agent_id = pc_agent_id;
            command = set_protection;
            enabled = on;
            timestamp = env.clock w.steps;
          }))
          (record w { steps = w.steps + 1 })
