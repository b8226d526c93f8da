-- ===== src/Mqtt/Publish/RoundTrip.antt =====
-- A message that publishQoS1 sends reaches the handler of a subscriber, and is acknowledged.
use datn_backend.Prelude.{
  ℕ, suc, ◌+◌, ◌*◌, ◌/◌, ◌%◌, ◌≤◌, ◌<◌, ◌≡◌, refl, ap, sym, true, false, Option, some, [], ◌∷◌,
  ◌++◌, arith, ltb, ◌==◌, if◌then◌else◌, length, take, drop, length-append, take-length-append,
  drop-length-append, take-append-drop, length-take, Bool-cases, inl, inr,
}
use datn_backend.Mqtt.Lengths.{Bytes}
use datn_backend.Mqtt.Packets.{Packet, uint16, write_utf, write_packet, read_packet}
use datn_backend.Mqtt.Packets.RoundTrip.{read-write_packet}
use datn_backend.Mqtt.Publish.{
  Published, big_endian, parse_message, parse_publish, publish_packet, react, react_to, is_puback,
}

-- What publishQoS1 sends, as it is parsed.
parse-publish_body :
    (topic payload : Bytes)
    → length topic < 65536
    → parse_publish 2 (write_utf topic ++ (uint16 1 ++ payload))
      ≡ some (record { topic = topic; packet_id = uint16 1; payload = payload })
unfolding parse_publish
parse-publish_body topic payload short =
    let size : big_endian (length topic / 256 % 256) (length topic % 256) ≡ length topic =
      omega arith in
    let enough : ltb (length (topic ++ (uint16 1 ++ payload))) (length topic) ≡ false =
      ground (arith, length-append topic (uint16 1 ++ payload)) in
    let long : ltb (suc (suc (length payload))) 2 ≡ false = ground arith in
    rw
      (
        size,
        enough,
        take-length-append topic (uint16 1 ++ payload),
        drop-length-append topic (uint16 1 ++ payload),
        long,
      )
      refl

-- Where the topic has fewer than 65536 bytes and the packet fewer than 2 ^ 28, the bytes that
-- publishQoS1 writes are read as one packet, whatever follows them; the round of readLoop for it
-- hands exactly that topic and payload to the handler and answers with a PUBACK that publishQoS1
-- accepts.
pub react-publish_packet :
    (topic payload s t : Bytes)
    → length topic < 65536
    → length topic + length payload + 4 < 268435456
    → (packet : Packet) × (answer : Packet) × (read_packet (publish_packet topic payload ++ s)
        ≡ some (packet, s))
      × ((react packet).0
          ≡ some (record { topic = topic; packet_id = uint16 1; payload = payload }))
      × (read_packet ((react packet).1 ++ t) ≡ some (answer, t))
      × (is_puback answer ≡ true)
react-publish_packet topic payload s t short small =
    let body = write_utf topic ++ (uint16 1 ++ payload) in
    let size : length body < 268435456 = omega (arith, length-append topic (uint16 1 ++ payload)) in
    let packet : Packet = record { packet_type = 3; flags = 2; payload = body } in
    let answer : Packet = record { packet_type = 4; flags = 0; payload = uint16 1 } in
    let parsed : react packet ≡ (
      some (record { topic = topic; packet_id = uint16 1; payload = payload }),
      write_packet 4 0 (uint16 1),
    ) =
      ap react_to (parse-publish_body topic payload short) in
    (
      packet,
      answer,
      read-write_packet 3 2 body s (omega arith) (omega arith) size,
      ap (λ (p : Option Published × Bytes). p.0) parsed,
      rw parsed (read-write_packet 4 0 (uint16 1) t (omega arith) (omega arith) (omega arith)),
      refl,
    )

not_shorter : (s : Bytes) (n : ℕ) → ltb (length s) n ≡ false → n ≤ length s
not_shorter s n h = ground arith

length_two : (s : Bytes) → ltb (length s) 2 ≡ false → length (take 2 s) ≡ 2
length_two s h = omega (arith, length-take 2 s, not_shorter s 2 h)

parse_message_sound :
    (qos : ℕ) (topic s : Bytes) (p : Published)
    → parse_message qos topic s ≡ some p
    → (p.topic ≡ topic)
      × (p.packet_id ++ p.payload ≡ s)
      × (length p.packet_id ≡ (if qos == 0 then 0 else 2))
parse_message_sound qos topic s p h = elim (Bool-cases (qos == 0)) [
  | inl e ↦ (ground arith, ground arith, ground arith)
  | inr e ↦ elim (Bool-cases (ltb (length s) 2)) [
    | inl f ↦ absurd (ground arith)
    | inr f ↦
        (let same : record { topic = topic; packet_id = take 2 s; payload = drop 2 s } ≡ p =
            ground arith in
          rw (← same, e) (refl, take-append-drop 2 s, length_two s f))
  ]
]

-- What parsePublish accepts is cut in pieces without loss: the topic has the length that the first
-- two bytes say, and the packet identifier two bytes, or none where the QoS is 0.
pub parse_publish_sound :
    (flags : ℕ) (s : Bytes) (p : Published)
    → parse_publish flags s ≡ some p
    → (high : ℕ) × (low : ℕ) × (s ≡ high ∷ low ∷ p.topic ++ (p.packet_id ++ p.payload))
      × (length p.topic ≡ high * 256 + low)
      × (length p.packet_id ≡ (if flags / 2 % 4 == 0 then 0 else 2))
unfolding parse_publish
parse_publish_sound flags [] p h = cc
parse_publish_sound flags (a ∷ []) p h = cc
parse_publish_sound flags (high ∷ low ∷ s) p h =
    elim (Bool-cases (ltb (length s) (big_endian high low))) [
      | inl e ↦ absurd (ground arith)
      | inr e ↦
          (let n = big_endian high low in
            let (topic, rest, size) =
              parse_message_sound (flags / 2 % 4) (take n s) (drop n s) p (rw e at h) in
            (
              high,
              low,
              rw (topic, rest) (ap (λ t. high ∷ low ∷ t) (sym (take-append-drop n s))),
              rw topic (omega (arith, length-take n s, not_shorter s n e)),
              size,
            ))
    ]
