-- ===== src/Mqtt/Packets/RoundTrip.antt =====
-- A packet that is written is read back.
use datn_backend.Prelude.{
  ℕ, ◌+◌, ◌*◌, ◌/◌, ◌%◌, ◌<◌, ◌≡◌, refl, ap, ◌∙◌, false, some, ◌++◌, arith, ltb, length,
  length-append, take-length-append, drop-length-append,
}
use mathlib.Core.List.{append_assoc}
use datn_backend.Mqtt.Lengths.{Bytes, encode_remaining_length}
use datn_backend.Mqtt.Lengths.RoundTrip.{read-encode}
use datn_backend.Mqtt.Packets.{write_packet, read_full, packet_of, read_packet}

read_full-append :
    (payload s : Bytes) → read_full (length payload) (payload ++ s) ≡ some (payload, s)
read_full-append payload s =
    let enough : ltb (length (payload ++ s)) (length payload) ≡ false =
      ground (arith, length-append payload s) in
    rw (enough, take-length-append payload s, drop-length-append payload s) refl

-- A packet of fewer than 2 ^ 28 bytes with its type and flags below 16 is read back as it was
-- written, and the bytes after it are left.
pub read-write_packet :
    (packet_type flags : ℕ) (payload s : Bytes)
    → packet_type < 16
    → flags < 16
    → length payload < 268435456
    → read_packet (write_packet packet_type flags payload ++ s)
      ≡ some (record { packet_type = packet_type; flags = flags; payload = payload }, s)
read-write_packet packet_type flags payload s type_small flags_small short =
    let high : (packet_type * 16 + flags) % 256 / 16 ≡ packet_type = omega arith in
    let low : (packet_type * 16 + flags) % 256 % 16 ≡ flags = omega arith in
    let first = (packet_type * 16 + flags) % 256 in
    rw
      (
        append_assoc (encode_remaining_length (length payload)) payload s,
        read-encode (length payload) (payload ++ s) short,
      )
      (ap (packet_of first) (read_full-append payload s) ∙ rw (high, low) refl)
