-- ===== src/Mqtt/Publish.antt =====
-- parsePublish, publishQoS1, connect, subscribe and the rounds of readLoop.
pub mod RoundTrip
use datn_backend.Prelude.{
  ℕ, ◌+◌, ◌*◌, ◌/◌, ◌%◌, Bool, true, false, not, ◌||◌, ◌&&◌, Option, none, some, List, [], ◌∷◌,
  ◌++◌, ltb, ◌==◌, if◌then◌else◌, length, take, drop,
}
use datn_backend.Text.{utf8, is_empty}
use datn_backend.Mqtt.Lengths.{Bytes}
use datn_backend.Mqtt.Packets.{Packet, uint16, write_utf, write_packet}

pub record Published : Type 0 where
  pub topic : Bytes
  -- Without bytes where the packet has QoS 0.
  pub packet_id : Bytes
  pub payload : Bytes

-- binary.BigEndian.Uint16 of the first two bytes.
abbrev pub big_endian : ℕ → ℕ → ℕ
big_endian high low = high * 256 + low

-- (flags >> 1) & 0x03
abbrev pub qos_of : ℕ → ℕ
qos_of flags = flags / 2 % 4

-- From the packet identifier on.
abbrev pub parse_message : ℕ → Bytes → Bytes → Option Published
parse_message qos topic s =
    if qos == 0
    then some (record { topic = topic; packet_id = []; payload = s })
    else if ltb (length s) 2
    then none
    else some (record { topic = topic; packet_id = take 2 s; payload = drop 2 s })

unfoldable pub parse_publish : ℕ → Bytes → Option Published
parse_publish flags (high ∷ low ∷ s) =
    let topic_length = big_endian high low in
    if ltb (length s) topic_length
    then none
    else parse_message (qos_of flags) (take topic_length s) (drop topic_length s)
parse_publish flags s = none

-- The packet that publishQoS1 writes, with the identifier 1.
abbrev pub publish_packet : Bytes → Bytes → Bytes
publish_packet topic payload = write_packet 3 2 (write_utf topic ++ (uint16 1 ++ payload))

-- The answer that publishQoS1 takes for an acknowledgement.
abbrev pub is_puback : Packet → Bool
is_puback packet = packet.packet_type == 4 && is_one packet.payload
  where
    is_one : Bytes → Bool
    is_one (high ∷ low ∷ []) = big_endian high low == 1
    is_one s = false

-- 0x02, and 0x80 and 0x40 for a username and a password that are given.
abbrev pub connect_flags : Bytes → Bytes → ℕ
connect_flags username password =
    2 + (if is_empty username then 0 else 128) + (if is_empty password then 0 else 64)

abbrev pub optional_utf : Bytes → Bytes
optional_utf value = if is_empty value then [] else write_utf value

abbrev pub connect_packet : Bytes → Bytes → Bytes → Bytes
connect_packet client_id username password = write_packet 1 0 (
    write_utf (utf8 "MQTT")
    ++ 4 ∷ connect_flags username password ∷ uint16 0
    ++ write_utf client_id
    ++ optional_utf username
    ++ optional_utf password)

-- packetType == 2 && len(response) >= 2 && response[1] == 0
abbrev pub is_connack : Packet → Bool
is_connack packet = packet.packet_type == 2 && is_accepted packet.payload
  where
    is_accepted : Bytes → Bool
    is_accepted (first ∷ code ∷ s) = code == 0
    is_accepted s = false

abbrev pub subscribe_packet : Bytes → Bytes
subscribe_packet topic_filter = write_packet 8 2 (uint16 1 ++ write_utf topic_filter ++ 1 ∷ [])

-- packetType == 9 && len(response) >= 3 && response[2] != 0x80
abbrev pub is_suback : Packet → Bool
is_suback packet = packet.packet_type == 9 && is_granted packet.payload
  where
    is_granted : Bytes → Bool
    is_granted (high ∷ low ∷ code ∷ s) = not (code == 128)
    is_granted s = false

-- What one packet makes readLoop do: the message for the handler, and the bytes it writes; the
-- PUBACK goes out whether the handler fails or not.
abbrev pub puback : Bytes → Bytes
puback packet_id = if length packet_id == 2 then write_packet 4 0 packet_id else []

abbrev pub react_to : Option Published → Option Published × Bytes
react_to none = (none, [])
react_to (some message) = (some message, puback message.packet_id)

abbrev pub react : Packet → Option Published × Bytes
react packet =
    if packet.packet_type == 3
    then react_to (parse_publish packet.flags packet.payload)
    else (none, [])
