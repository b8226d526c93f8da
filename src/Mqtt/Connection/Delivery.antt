-- ===== src/Mqtt/Connection/Delivery.antt =====
-- What the subscriber does with the packets that a broker sends, against the messages in them.
use datn_backend.Prelude.{
  ℕ, zero, suc, ◌+◌, ◌<◌, ◌≡◌, refl, ap, ◌∙◌, Bool, true, false, Option, none, some, List, [], ◌∷◌,
  ◌++◌, arith, length, length-append, All,
}
use mathlib.Core.List.{append_assoc, append-nil}
use datn_backend.Text.{Text}
use datn_backend.World.{World, Env}
use datn_backend.Action.{Action}
use datn_backend.Mqtt.Lengths.{Bytes}
use datn_backend.Mqtt.Packets.{Packet, write_packet, read_packet, is_malformed}
use datn_backend.Mqtt.Packets.RoundTrip.{read-write_packet}
use datn_backend.Mqtt.Publish.{Published, react, react_to}
use datn_backend.Mqtt.Connection.{
  Ending, closed, silent, Stream, Network, Conn, conn_of, Progress, returns, stuck, after, ◌>>◌,
  Client, write, respond, read_round, next_round, read_loop, run_once, connect, subscribe,
  broker_address,
}
use datn_backend.Mqtt.Connection.Messages.{
  bytes_of, IsPacket, message_of, messages_of, acknowledgement, acknowledgements, handled,
  length-packets, HasIdentifier, message_of-HasIdentifier, react-message_of, written_for, run_for,
  acknowledgements-before, handled-before,
}

module _ (env : Env) (network : Network) (handler : Published → Action (Unit {0}))
    (writes : (n : ℕ) → network.write_fails n ≡ false) where
  write_lem :
      (bytes : Bytes) (c : Conn) (w : World)
      → write env network bytes c w
        ≡ (returns tt, record c { written = c.written ++ bytes }, record w { steps = w.steps + 1 })
  unfolding write
  write_lem bytes c w = rw (writes w.steps) refl

  respond_lem :
      (o : Option Published) (c : Conn) (w : World)
      → HasIdentifier o
      → respond env network handler (react_to o) c w
        ≡ (returns tt, record c { written = c.written ++ written_for o }, run_for handler o w)
  respond_lem none c w h = rw (append-nil c.written) refl
  respond_lem (some message) c w h = identified message.packet_id refl
    where
      identified :
          (packet_id : Bytes)
          → message.packet_id ≡ packet_id
          → respond env network handler (react_to (some message)) c w ≡ (
            returns tt,
            record c { written = c.written ++ acknowledgement message },
            run_for handler (some message) w,
          )
      identified [] e = rw (e, append-nil c.written) refl
      identified (a ∷ b ∷ []) e = rw e (
          write_lem (write_packet 4 0 (a ∷ b ∷ [])) c
            (handler (record message { packet_id = a ∷ b ∷ [] }) w).1)
      identified (a ∷ []) e = absurd (ground (arith, h))
      identified (a ∷ b ∷ d ∷ s) e = absurd (ground (arith, h))

  read_round_lem :
      (p : Packet) (s out : Bytes) (ending : Ending) (w : World)
      → IsPacket p
      → read_round env network handler
          (record {
            incoming = write_packet p.packet_type p.flags p.payload ++ s;
            written = out;
            ending = ending;
          })
          w
        ≡ (
          returns tt,
          record { incoming = s; written = out ++ written_for (message_of p); ending = ending },
          run_for handler (message_of p) w,
        )
  unfolding read_round
  read_round_lem p s out ending w (typed, flagged, short) =
      rw
        (
          read-write_packet p.packet_type p.flags p.payload s typed flagged short,
          react-message_of p,
        )
        (respond_lem (message_of p) (record { incoming = s; written = out; ending = ending }) w
          (message_of-HasIdentifier p))

  next_round-stuck :
      (loop : Conn → World → Option (Progress (Unit {0}) × Conn × World)) (c : Conn) (w : World)
      (ending : Ending) (malformed : Bool)
      → next_round env network loop (
          after
            (λ packet. respond env network handler (react packet))
            (stuck ending malformed, c, w))
        ≡ some (stuck ending malformed, c, w)
  next_round-stuck loop c w closed malformed = refl
  next_round-stuck loop c w silent true = refl
  next_round-stuck loop c w silent false = refl

  read_loop_lem :
      (packets : List Packet) (rest out : Bytes) (ending : Ending) (fuel : ℕ) (w : World)
      → length packets < fuel
      → All IsPacket packets
      → read_packet rest ≡ none
      → read_loop env network handler fuel
          (record { incoming = bytes_of packets ++ rest; written = out; ending = ending })
          w
        ≡ some (
          stuck ending (is_malformed rest),
          record {
            incoming = rest;
            written = out ++ acknowledgements (messages_of packets);
            ending = ending;
          },
          handled handler (messages_of packets) w,
        )
  unfolding read_loop
  read_loop_lem packets rest out ending zero w enough fine stop = absurd (omega arith)
  read_loop_lem [] rest out ending (suc fuel) w enough fine stop =
      let c : Conn = record { incoming = rest; written = out; ending = ending } in
      rw (append-nil out) (
        unfold read_round in
        rw stop
          (next_round-stuck (read_loop env network handler fuel) c w ending (is_malformed rest)))
  read_loop_lem (p ∷ packets) rest out ending (suc fuel) w enough (small, fine) stop =
      let o = message_of p in
      let later =
        read_loop_lem packets rest (out ++ written_for o) ending fuel (run_for handler o w)
          (omega arith) fine stop in
      ap (next_round env network (read_loop env network handler fuel)) (
        ap
          (λ s.
            read_round env network handler (record { incoming = s; written = out; ending = ending })
              w)
          (append_assoc (write_packet p.packet_type p.flags p.payload) (bytes_of packets) rest)
        ∙ read_round_lem p (bytes_of packets ++ rest) out ending w small)
      ∙ later
      ∙ rw
          (
            append_assoc out (written_for o) (acknowledgements (messages_of packets)),
            acknowledgements-before o (messages_of packets),
            handled-before handler o (messages_of packets) w,
          )
          refl

  -- Where the broker has accepted the connection and the subscription and no write fails, the
  -- packets that it then sends are read one by one, however many they are: the handler runs once
  -- for each message in them, in order, each message with a packet identifier is acknowledged with
  -- that identifier, nothing else is written, and the other packets are passed over. After the last
  -- of them, where no whole packet follows, the round fails if the broker has closed the connection
  -- or the next length is malformed, and it waits, without a deadline, if the broker is silent.
  pub run_once_delivers :
      (s : Client) (topic_filter : Text) (w v : World) (stream : Stream) (packets : List Packet)
      (rest out : Bytes) (ending : Ending)
      → network.dial w.steps (broker_address s.broker) ≡ some stream
      → (connect env network s >> subscribe env network topic_filter)
          (conn_of stream)
          (record w { steps = w.steps + 1 })
        ≡ (
          returns tt,
          record { incoming = bytes_of packets ++ rest; written = out; ending = ending },
          v,
        )
      → All IsPacket packets
      → read_packet rest ≡ none
      → run_once env network handler s topic_filter w
        ≡ some (
          stuck ending (is_malformed rest),
          record {
            incoming = rest;
            written = out ++ acknowledgements (messages_of packets);
            ending = ending;
          },
          handled handler (messages_of packets) v,
        )
  unfolding run_once
  run_once_delivers s topic_filter w v stream packets rest out ending dials accepts fine stop =
      let fuel = suc (length (bytes_of packets ++ rest)) in
      let enough : length packets < fuel =
        omega (arith, length-packets packets, length-append (bytes_of packets) rest) in
      rw (dials, accepts) (read_loop_lem packets rest out ending fuel v enough fine stop)
