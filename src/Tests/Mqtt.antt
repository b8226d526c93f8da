-- ===== src/Tests/Mqtt.antt =====
-- MQTT packets at concrete inputs.
use datn_backend.Prelude.{
  ℕ, ◌+◌, ◌*◌, ◌/◌, ◌%◌, ◌≡◌, refl, true, none, some, [], ◌∷◌, ◌++◌, arith, length, ◌==◌,
  if◌then◌else◌,
}
use datn_backend.Text.{utf8}
use datn_backend.Mqtt.Lengths.{Bytes, encode_remaining_length, read_remaining_length}
use datn_backend.Mqtt.Lengths.RoundTrip.{read-encode, read-encode_none}
use datn_backend.Mqtt.Packets.{Packet, uint16, write_packet, read_packet}
use datn_backend.Mqtt.Packets.RoundTrip.{read-write_packet}
use datn_backend.Mqtt.Publish.{Published, parse_publish, publish_packet, react, is_puback}
use datn_backend.Mqtt.Publish.RoundTrip.{react-publish_packet, parse_publish_sound}

read-encode_example :
    read_remaining_length (encode_remaining_length 300 ++ 7 ∷ []) ≡ some (300, 7 ∷ [])
read-encode_example = read-encode 300 (7 ∷ []) (omega arith)

read-encode_none_example :
    read_remaining_length (encode_remaining_length 268435456 ++ 7 ∷ []) ≡ none
read-encode_none_example = read-encode_none 268435456 (7 ∷ []) (omega arith)

read-write_packet_example :
    read_packet (write_packet 8 2 (utf8 "abc") ++ 7 ∷ [])
    ≡ some (record { packet_type = 8; flags = 2; payload = utf8 "abc" }, 7 ∷ [])
read-write_packet_example =
    read-write_packet 8 2 (utf8 "abc") (7 ∷ []) (omega arith) (omega arith) (omega arith)

abbrev topic : Bytes
topic = utf8 "pcapp/control/a1"

abbrev payload : Bytes
payload = utf8 "{}"

react-publish_packet_example :
    (packet : Packet) × (answer : Packet) × (read_packet
        (publish_packet topic payload ++ 224 ∷ 0 ∷ [])
      ≡ some (packet, 224 ∷ 0 ∷ []))
    × ((react packet).0 ≡ some (record { topic = topic; packet_id = uint16 1; payload = payload }))
    × (read_packet ((react packet).1 ++ []) ≡ some (answer, []))
    × (is_puback answer ≡ true)
react-publish_packet_example =
    react-publish_packet topic payload (224 ∷ 0 ∷ []) [] (omega arith) (omega arith)

abbrev message : Published
message = record { topic = utf8 "a/b"; packet_id = 0 ∷ 9 ∷ []; payload = utf8 "x" }

parsed : parse_publish 2 (0 ∷ 3 ∷ b'a' ∷ b'/' ∷ b'b' ∷ 0 ∷ 9 ∷ b'x' ∷ []) ≡ some message
unfolding parse_publish
parsed = refl

parse_publish_sound_example :
    (high : ℕ) × (low : ℕ) × (0 ∷ 3 ∷ b'a' ∷ b'/' ∷ b'b' ∷ 0 ∷ 9 ∷ b'x' ∷ []
      ≡ high ∷ low ∷ message.topic ++ (message.packet_id ++ message.payload))
    × (length message.topic ≡ high * 256 + low)
    × (length message.packet_id ≡ (if 2 / 2 % 4 == 0 then 0 else 2))
parse_publish_sound_example =
    parse_publish_sound 2 (0 ∷ 3 ∷ b'a' ∷ b'/' ∷ b'b' ∷ 0 ∷ 9 ∷ b'x' ∷ []) message parsed
