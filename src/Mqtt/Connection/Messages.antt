-- ===== src/Mqtt/Connection/Messages.antt =====
-- The messages in the packets of a broker, and what the subscriber is to do with each of them.
use datn_backend.Prelude.{
  ℕ, ◌+◌, ◌/◌, ◌%◌, ◌<◌, ◌≤◌, ◌≡◌, refl, Option, none, some, List, [], ◌∷◌, ◌++◌, ◌==◌,
  if◌then◌else◌, arith, length, length-append, Bool-cases, inl, inr,
}
use datn_backend.Text.{is_empty}
use datn_backend.World.{World}
use datn_backend.Action.{Action}
use datn_backend.Mqtt.Lengths.{Bytes}
use datn_backend.Mqtt.Packets.{Packet, write_packet}
use datn_backend.Mqtt.Publish.{Published, parse_publish, react, react_to}
use datn_backend.Mqtt.Publish.RoundTrip.{parse_publish_sound}

-- The packets of a broker, as bytes.
abbrev pub bytes_of : List Packet → Bytes
bytes_of [] = []
bytes_of (p ∷ packets) = write_packet p.packet_type p.flags p.payload ++ bytes_of packets

abbrev pub IsPacket : Packet → Type 0
IsPacket p = (p.packet_type < 16) × (p.flags < 16) × (length p.payload < 268435456)

-- The messages in the packets that are PUBLISH packets and can be parsed.
abbrev pub message_of : Packet → Option Published
message_of p = if p.packet_type == 3 then parse_publish p.flags p.payload else none

abbrev pub before : Option Published → List Published → List Published
before none messages = messages
before (some message) messages = message ∷ messages

abbrev pub messages_of : List Packet → List Published
messages_of [] = []
messages_of (p ∷ packets) = before (message_of p) (messages_of packets)

-- The PUBACK of a message that has a packet identifier.
abbrev pub acknowledgement : Published → Bytes
acknowledgement message =
    if is_empty message.packet_id then [] else write_packet 4 0 message.packet_id

abbrev pub acknowledgements : List Published → Bytes
acknowledgements [] = []
acknowledgements (message ∷ messages) = acknowledgement message ++ acknowledgements messages

-- The handler runs for each message, in order, and the PUBACK that follows is a write.
abbrev pub handled : (Published → Action (Unit {0})) → List Published → World → World
handled handler [] w = w
handled handler (message ∷ messages) w =
    let v = (handler message w).1 in
    handled handler messages
      (record v { steps = if is_empty message.packet_id then v.steps else v.steps + 1 })

pub length-packets : (packets : List Packet) → length packets ≤ length (bytes_of packets)
length-packets [] = omega arith
length-packets (p ∷ packets) = omega (
  arith,
  length-packets packets,
  length-append (write_packet p.packet_type p.flags p.payload) (bytes_of packets),
)

abbrev pub HasIdentifier : Option Published → Type 0
HasIdentifier none = Unit {0}
HasIdentifier (some message) =
    length message.packet_id ≡ (if is_empty message.packet_id then 0 else 2)

two_or_none :
    (qos : ℕ) (packet_id : Bytes)
    → length packet_id ≡ (if qos == 0 then 0 else 2)
    → length packet_id ≡ (if is_empty packet_id then 0 else 2)
two_or_none qos [] h = refl
two_or_none qos (a ∷ s) h = ground arith

pub message_of-HasIdentifier : (p : Packet) → HasIdentifier (message_of p)
message_of-HasIdentifier p = identified (message_of p) refl
  where
    identified : (o : Option Published) → message_of p ≡ o → HasIdentifier o
    identified none h = tt
    identified (some message) h = elim (Bool-cases (p.packet_type == 3)) [
      | inl e ↦
          (let (high, low, cut, named, sized) =
              parse_publish_sound p.flags p.payload message (rw e at h) in
            two_or_none (p.flags / 2 % 4) message.packet_id sized)
      | inr e ↦ absurd (ground arith)
    ]

pub react-message_of : (p : Packet) → react p ≡ react_to (message_of p)
react-message_of p = elim (Bool-cases (p.packet_type == 3)) [
  | inl e ↦ rw e refl
  | inr e ↦ rw e refl
]

-- What one packet adds.
abbrev pub written_for : Option Published → Bytes
written_for none = []
written_for (some message) = acknowledgement message

abbrev pub run_for : (Published → Action (Unit {0})) → Option Published → World → World
run_for handler none w = w
run_for handler (some message) w =
    let v = (handler message w).1 in
    record v { steps = if is_empty message.packet_id then v.steps else v.steps + 1 }

pub acknowledgements-before :
    (o : Option Published) (messages : List Published)
    → acknowledgements (before o messages) ≡ written_for o ++ acknowledgements messages
acknowledgements-before none messages = refl
acknowledgements-before (some message) messages = refl

pub handled-before :
    (handler : Published → Action (Unit {0})) (o : Option Published) (messages : List Published)
    (w : World)
    → handled handler (before o messages) w ≡ handled handler messages (run_for handler o w)
handled-before handler none messages w = refl
handled-before handler (some message) messages w = refl
