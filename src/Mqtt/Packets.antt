-- ===== src/Mqtt/Packets.antt =====
-- writePacket, readPacket and writeUTF.
pub mod RoundTrip
use datn_backend.Prelude.{
  ℕ, ◌+◌, ◌*◌, ◌/◌, ◌%◌, Bool, false, not, ◌||◌, Option, none, some, List, [], ◌∷◌, ◌++◌, ltb,
  if◌then◌else◌, length, take, drop,
}
use datn_backend.Mqtt.Lengths.{Bytes, encode_remaining_length, read_remaining_length}

-- binary.Write of a uint16 in big-endian order.
abbrev pub uint16 : ℕ → Bytes
uint16 n = (n / 256 % 256) ∷ (n % 256) ∷ []

-- uint16(len(value)) keeps the low sixteen bits, and so does `uint16`.
abbrev pub write_utf : Bytes → Bytes
write_utf value = uint16 (length value) ++ value

-- packetType<<4 | flags, where the flags are below 16.
abbrev pub write_packet : ℕ → ℕ → Bytes → Bytes
write_packet packet_type flags payload =
    ((packet_type * 16 + flags) % 256 ∷ encode_remaining_length (length payload)) ++ payload

pub record Packet : Type 0 where
  pub packet_type : ℕ
  pub flags : ℕ
  pub payload : Bytes

-- io.ReadFull: fewer bytes than asked for are an error.
abbrev pub read_full : ℕ → Bytes → Option (Bytes × Bytes)
read_full n s = if ltb (length s) n then none else some (take n s, drop n s)

abbrev pub packet_of : ℕ → Option (Bytes × Bytes) → Option (Packet × Bytes)
packet_of first none = none
packet_of first (some (payload, rest)) =
    some (record { packet_type = first / 16; flags = first % 16; payload = payload }, rest)

abbrev pub read_payload : ℕ → Option (ℕ × Bytes) → Option (Packet × Bytes)
read_payload first none = none
read_payload first (some (remaining, s)) = packet_of first (read_full remaining s)

-- The packet, and the bytes after it.
abbrev pub read_packet : Bytes → Option (Packet × Bytes)
read_packet [] = none
read_packet (first ∷ s) = read_payload first (read_remaining_length s)

-- Four bytes of the length with the bit 0x80, which are refused whatever follows them.
abbrev pub is_malformed : Bytes → Bool
is_malformed (first ∷ a ∷ b ∷ c ∷ d ∷ s) = not (ltb a 128 || ltb b 128 || ltb c 128 || ltb d 128)
is_malformed s = false
