-- ===== src/Mqtt/Connection.antt =====
-- The conversation with the broker: connect, subscribe, readLoop, runOnce and Run of subscriber.go.
pub mod Messages
pub mod Delivery
pub mod Termination
use datn_backend.Prelude.{
  ℕ, zero, suc, ◌+◌, Bool, true, false, Option, none, some, List, [], ◌∷◌, ◌++◌, ◌||◌, length,
  if◌then◌else◌,
}
use datn_backend.Text.{Text, utf8, contains, trim_space, is_empty}
use datn_backend.Text.Parts.{trim_prefix, decimal}
use datn_backend.Errors.{Error, network_failed}
use datn_backend.World.{World, Env}
use datn_backend.Action.{Action}
use datn_backend.Mqtt.Lengths.{Bytes}
use datn_backend.Mqtt.Packets.{Packet, read_packet, is_malformed}
use datn_backend.Mqtt.Publish.{
  Published, connect_packet, subscribe_packet, is_connack, is_suback, react,
}

-- What becomes of a connection after the bytes that the broker sends on it: it is closed, or it stays
-- open and silent.
pub data Ending : Type 0 where
  closed silent : Ending

pub record Stream : Type 0 where
  pub incoming : Bytes
  pub ending : Ending

-- The network: what the broker sends on a connection that is dialed, and whether a write fails. Each
-- dial and each write is an effect of the run.
pub record Network : Type 0 where
  pub dial : ℕ → Text → Option Stream
  pub write_fails : ℕ → Bool

pub record Conn : Type 0 where
  pub incoming : Bytes
  pub written : Bytes
  pub ending : Ending

abbrev pub empty_conn : Conn
empty_conn = record { incoming = []; written = []; ending = closed }

abbrev pub conn_of : Stream → Conn
conn_of stream = record { incoming = stream.incoming; written = []; ending = stream.ending }

-- A call returns, or it fails, or it waits for bytes that do not come.
pub data Progress (A : Type 0) : Type 0 where
  returns : A → Progress A
  fails : Error → Progress A
  waits : Progress A

abbrev pub Io : Type 0 → Type 0
Io A = Conn → World → Progress A × Conn × World

abbrev pub after :
    {A B : Type 0} → (A → Io B) → Progress A × Conn × World → Progress B × Conn × World
after f (returns a, c, w) = f a c w
after f (fails e, c, w) = (fails e, c, w)
after f (waits, c, w) = (waits, c, w)

infixl 10 ◌>>=◌ ◌>>◌
abbrev pub ◌>>=◌ : {A B : Type 0} → Io A → (A → Io B) → Io B
◌>>=◌ m f c w = after f (m c w)

abbrev pub ◌>>◌ : {A B : Type 0} → Io A → Io B → Io B
m >> n = m >>= λ _. n

abbrev pub done : Io (Unit {0})
done c w = (returns tt, c, w)

abbrev pub expect : Bool → Io (Unit {0})
expect true c w = (returns tt, c, w)
expect false c w = (fails network_failed, c, w)

-- What a handler returns is logged only.
abbrev pub run_handler : Action (Unit {0}) → Io (Unit {0})
run_handler m c w = (returns tt, c, (m w).1)

-- Reading where no whole packet has come: the end of a closed connection is an error, and so is a
-- malformed length; a silent connection is read without a deadline.
abbrev pub stuck : {A : Type 0} → Ending → Bool → Progress A
stuck closed malformed = fails network_failed
stuck silent true = fails network_failed
stuck silent false = waits

abbrev took : Conn → World → Option (Packet × Bytes) → Progress Packet × Conn × World
took c w none = (stuck c.ending (is_malformed c.incoming), c, w)
took c w (some (packet, rest)) = (returns packet, record c { incoming = rest }, w)

abbrev pub next_packet : Io Packet
next_packet c w = took c w (read_packet c.incoming)

pub record Client : Type 0 where
  pub broker : Text
  pub client_id : Text
  pub username : Text
  pub password : Text

-- The prefixes are taken off one after the other.
unfoldable pub broker_address : Text → Text
unfolding trim_prefix contains
broker_address raw =
    let broker = trim_prefix (trim_prefix (trim_space raw) (utf8 "tcp://")) (utf8 "mqtt://") in
    if contains broker b':' then broker else broker ++ utf8 ":1883"

abbrev pub give : {A : Type 0} → A → Io A
give a c w = (returns a, c, w)

module _ (env : Env) (network : Network) where
  unfoldable pub write : Bytes → Io (Unit {0})
  write bytes c w =
      let w' = record w { steps = w.steps + 1 } in
      if network.write_fails w.steps
      then (fails network_failed, c, w')
      else (returns tt, record c { written = c.written ++ bytes }, w')

  unix_nano : Io ℕ
  unix_nano c w = (returns (env.clock w.steps), c, record w { steps = w.steps + 1 })

  -- fmt.Sprintf("datn-backend-%d", time.Now().UnixNano()) for an empty one.
  unfoldable pub client_id_of : Text → Io Text
  unfolding unix_nano decimal
  client_id_of raw =
      let client_id = trim_space raw in
      if is_empty client_id
      then unix_nano >>= (λ nano. give (utf8 "datn-backend-" ++ decimal nano))
      else give client_id

  unfoldable pub connect : Client → Io (Unit {0})
  unfolding client_id_of write
  connect s = do
    client_id ← client_id_of s.client_id
    write (connect_packet client_id s.username s.password)
    response ← next_packet
    expect (is_connack response)

  unfoldable pub subscribe : Text → Io (Unit {0})
  unfolding write
  subscribe topic_filter = do
    write (subscribe_packet topic_filter)
    response ← next_packet
    expect (is_suback response)

  -- The handler runs before the PUBACK is written.
  abbrev pub respond : (Published → Action (Unit {0})) → Option Published × Bytes → Io (Unit {0})
  respond handler (none, bytes) = done
  respond handler (some message, []) = run_handler (handler message)
  respond handler (some message, b ∷ bytes) = run_handler (handler message) >> write (b ∷ bytes)

  -- One round of readLoop.
  unfoldable pub read_round : (Published → Action (Unit {0})) → Io (Unit {0})
  unfolding write
  read_round handler = next_packet >>= λ packet. respond handler (react packet)

  -- How a loop ended, where `none` means that its fuel ran out.
  abbrev pub Stopped : Type 0
  Stopped = Option (Progress (Unit {0}) × Conn × World)

  abbrev pub next_round : (Conn → World → Stopped) → Progress (Unit {0}) × Conn × World → Stopped
  next_round loop (returns finished, c, w) = loop c w
  next_round loop (fails e, c, w) = some (fails e, c, w)
  next_round loop (waits, c, w) = some (waits, c, w)

  -- The loop fails or it waits for ever; it does not return.
  unfoldable pub read_loop : (Published → Action (Unit {0})) → ℕ → Conn → World → Stopped
  unfolding read_round
  read_loop handler zero c w = none
  read_loop handler (suc fuel) c w = next_round (read_loop handler fuel) (read_round handler c w)

  -- Each round of the loop takes a byte at least.
  abbrev pub begun : (Published → Action (Unit {0})) → Progress (Unit {0}) × Conn × World → Stopped
  begun handler (returns ready, c, w) = read_loop handler (suc (length c.incoming)) c w
  begun handler (fails e, c, w) = some (fails e, c, w)
  begun handler (waits, c, w) = some (waits, c, w)

  abbrev pub dialed :
      (Published → Action (Unit {0})) → Client → Text → Option Stream → World → Stopped
  dialed handler s topic_filter none w = some (fails network_failed, empty_conn, w)
  dialed handler s topic_filter (some stream) w =
      begun handler ((connect s >> subscribe topic_filter) (conn_of stream) w)

  -- The connection at its end, and why it ended, or where it waits.
  unfoldable pub run_once : (Published → Action (Unit {0})) → Client → Text → World → Stopped
  unfolding connect subscribe read_loop broker_address
  run_once handler s topic_filter w =
      dialed handler s topic_filter (network.dial w.steps (broker_address s.broker))
        (record w { steps = w.steps + 1 })

  -- A round that waits is the last one.
  abbrev pub again :
      (World → Option (Progress (Unit {0}) × World))
      → Stopped
      → Option (Progress (Unit {0}) × World)
  again rounds none = none
  again rounds (some (returns finished, c, w)) = rounds w
  again rounds (some (fails e, c, w)) = rounds w
  again rounds (some (waits, c, w)) = some (waits, w)

  -- The loop of Run, which begins this many rounds at most before its context is done.
  unfoldable pub run_rounds :
      (Published → Action (Unit {0}))
      → Client
      → Text
      → ℕ
      → World
      → Option (Progress (Unit {0}) × World)
  unfolding run_once
  run_rounds handler s topic_filter zero w = some (returns tt, w)
  run_rounds handler s topic_filter (suc n) w =
      again (run_rounds handler s topic_filter n) (run_once handler s topic_filter w)

  -- An empty broker or topic filter is an error before the first round.
  unfoldable pub run :
      (Published → Action (Unit {0}))
      → Client
      → Text
      → ℕ
      → World
      → Option (Progress (Unit {0}) × World)
  unfolding run_rounds
  run handler s topic_filter n w =
      if is_empty (trim_space s.broker) || is_empty (trim_space topic_filter)
      then some (fails network_failed, w)
      else run_rounds handler s topic_filter n w
