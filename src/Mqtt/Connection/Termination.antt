-- ===== src/Mqtt/Connection/Termination.antt =====
-- The fuel of the loops of the subscriber: a packet takes bytes from the connection.
use datn_backend.Prelude.{
  ◌||◌, ℕ, zero, suc, ◌+◌, ◌*◌, ◌%◌, ◌<◌, ◌≤◌, ◌≡◌, ◌≢◌, Bool, true, false, refl, inl, inr, Option,
  none, some, [], ◌∷◌, arith, length, length-drop, Bool-cases, Option-cases,
}
use datn_backend.Text.{Text, trim_space, is_empty}
use datn_backend.Errors.{network_failed}
use datn_backend.World.{World, Env}
use datn_backend.Action.{Action}
use datn_backend.Mqtt.Lengths.{Bytes, read_digits, read_remaining_length}
use datn_backend.Mqtt.Packets.{Packet, packet_of, read_full, read_packet, is_malformed}
use datn_backend.Mqtt.Publish.{Published, react}
use datn_backend.Mqtt.Connection.{
  Ending, closed, silent, Stream, Network, Conn, Progress, returns, fails, waits, again, stuck,
  after, Io, Client, read_round, respond, read_loop, next_round, begun, dialed, run_once,
  run_rounds, run, write, broker_address,
}

read_digits_shorter :
    (rounds multiplier value : ℕ) (s : Bytes) (v : ℕ) (rest : Bytes)
    → read_digits rounds multiplier value s ≡ some (v, rest)
    → length rest < length s
unfolding read_digits
read_digits_shorter zero multiplier value s v rest h = cc
read_digits_shorter (suc rounds) multiplier value [] v rest h = cc
read_digits_shorter (suc rounds) multiplier value (digit ∷ s) v rest h = ground (
  arith,
  read_digits_shorter rounds (multiplier * 128) (value + digit % 128 * multiplier) s v rest,
)

packet_of_shorter :
    (first remaining : ℕ) (s : Bytes) (packet : Packet) (rest : Bytes)
    → packet_of first (read_full remaining s) ≡ some (packet, rest)
    → length rest ≤ length s
packet_of_shorter first remaining s packet rest h = ground (arith, length-drop remaining s)

read_packet_shorter :
    (s : Bytes) (packet : Packet) (rest : Bytes)
    → read_packet s ≡ some (packet, rest)
    → length rest < length s
unfolding read_remaining_length
read_packet_shorter [] packet rest h = cc
read_packet_shorter (first ∷ s) packet rest h = elim (Option-cases (read_digits 4 1 0 s)) [
  | inl e ↦ absurd (ground arith)
  | inr ((remaining, t), e) ↦
      let shorter = read_digits_shorter 4 1 0 s remaining t e in
      let rest_of = packet_of_shorter first remaining t packet rest (ground arith) in omega arith
]

stuck_returns :
    (f : Packet → Io (Unit {0})) (c : Conn) (w : World) (ending : Ending) (malformed : Bool)
    → (after f (stuck ending malformed, c, w)).0 ≢ returns tt
stuck_returns f c w closed malformed h = cc
stuck_returns f c w silent true h = cc
stuck_returns f c w silent false h = cc

module _ (env : Env) (network : Network) (handler : Published → Action (Unit {0})) where
  respond_incoming :
      (reaction : Option Published × Bytes) (c : Conn) (w : World)
      → (respond env network handler reaction c w).1.incoming ≡ c.incoming
  unfolding write
  respond_incoming (none, bytes) c w = refl
  respond_incoming (some message, []) c w = refl
  respond_incoming (some message, b ∷ bytes) c w =
      elim (Bool-cases (network.write_fails (handler message w).1.steps)) [
        | inl e ↦ rw e refl
        | inr e ↦ rw e refl
      ]

  -- A round that succeeds has taken a packet.
  read_round_shorter :
      (c : Conn) (w : World)
      → (read_round env network handler c w).0 ≡ returns tt
      → length (read_round env network handler c w).1.incoming < length c.incoming
  unfolding read_round
  read_round_shorter c w h = elim (Option-cases (read_packet c.incoming)) [
    | inl e ↦ absurd (
        stuck_returns (λ packet. respond env network handler (react packet)) c w c.ending
          (is_malformed c.incoming) (rw e at h))
    | inr ((packet, rest), e) ↦
        rw (e, respond_incoming (react packet) (record c { incoming = rest }) w)
          (read_packet_shorter c.incoming packet rest e)
  ]

  abbrev Ends : Option (Progress (Unit {0}) × Conn × World) → Type 0
  Ends o = (r : Progress (Unit {0}) × Conn × World) × (o ≡ some r)

  next_round-Ends :
      (loop : Conn → World → Option (Progress (Unit {0}) × Conn × World)) (c : Conn)
      (r : Progress (Unit {0}) × Conn × World)
      → (r.0 ≡ returns tt → length r.1.incoming < length c.incoming)
      → ((d : Conn) (w : World) → length d.incoming < length c.incoming → Ends (loop d w))
      → Ends (next_round env network loop r)
  next_round-Ends loop c (returns tt, d, w) shorter ends = ends d w (shorter refl)
  next_round-Ends loop c (fails e, d, w) shorter ends = (_, refl)
  next_round-Ends loop c (waits, d, w) shorter ends = (_, refl)

  read_loop-Ends :
      (fuel : ℕ) (c : Conn) (w : World)
      → length c.incoming < fuel
      → Ends (read_loop env network handler fuel c w)
  unfolding read_loop
  read_loop-Ends zero c w h = absurd (omega arith)
  read_loop-Ends (suc fuel) c w h =
      next_round-Ends (read_loop env network handler fuel) c (read_round env network handler c w)
        (read_round_shorter c w) (λ d v shorter. read_loop-Ends fuel d v (omega arith))

  begun-Ends : (r : Progress (Unit {0}) × Conn × World) → Ends (begun env network handler r)
  begun-Ends (returns ready, c, w) = read_loop-Ends (suc (length c.incoming)) c w (omega arith)
  begun-Ends (fails e, c, w) = (_, refl)
  begun-Ends (waits, c, w) = (_, refl)

  dialed-Ends :
      (s : Client) (topic_filter : Text) (o : Option Stream) (w : World)
      → Ends (dialed env network handler s topic_filter o w)
  dialed-Ends s topic_filter none w = (_, refl)
  dialed-Ends s topic_filter (some stream) w = begun-Ends _

  run_once-Ends :
      (s : Client) (topic_filter : Text) (w : World)
      → Ends (run_once env network handler s topic_filter w)
  unfolding run_once
  run_once-Ends s topic_filter w =
      dialed-Ends s topic_filter (network.dial w.steps (broker_address s.broker))
        (record w { steps = w.steps + 1 })

  again_ends :
      (rounds : World → Option (Progress (Unit {0}) × World))
      (r : Progress (Unit {0}) × Conn × World)
      → ((w : World) → (v : Progress (Unit {0}) × World) × (rounds w ≡ some v))
      → (v : Progress (Unit {0}) × World) × (again env network rounds (some r) ≡ some v)
  again_ends rounds (returns finished, c, w) ends = ends w
  again_ends rounds (fails e, c, w) ends = ends w
  again_ends rounds (waits, c, w) ends = ((waits, w), refl)

  run_rounds_ends :
      (s : Client) (topic_filter : Text) (n : ℕ) (w : World)
      → (v : Progress (Unit {0}) × World) × (run_rounds env network handler s topic_filter n w
          ≡ some v)
  unfolding run_rounds
  run_rounds_ends s topic_filter zero w = ((returns tt, w), refl)
  run_rounds_ends s topic_filter (suc n) w =
      let (r, once) = run_once-Ends s topic_filter w in
      rw once (
        again_ends (run_rounds env network handler s topic_filter n) r
          (run_rounds_ends s topic_filter n))

  -- The fuel of the loops is enough: after n rounds at most, Run has come to their end or waits for
  -- a silent broker.
  run_has_fuel :
      (s : Client) (topic_filter : Text) (n : ℕ) (w : World)
      → (v : Progress (Unit {0}) × World) × (run env network handler s topic_filter n w ≡ some v)
  unfolding run
  run_has_fuel s topic_filter n w =
      elim (Bool-cases (is_empty (trim_space s.broker) || is_empty (trim_space topic_filter))) [
        | inl e ↦ ((fails network_failed, w), rw e refl)
        | inr e ↦ (let (v, h) = run_rounds_ends s topic_filter n w in (v, rw e h))
      ]
