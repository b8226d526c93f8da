-- ===== src/Repo/PairingSessions/Confirmation.antt =====
-- Confirm adds the agent and confirms the session, expires the session, or writes nothing.
use datn_backend.Prelude.{
  ◌+◌, ◌≤◌, ◌<◌, ◌≡◌, refl, subst, ◌⊎◌, inl, inr, true, false, none, some, [], ◌∷◌, ◌++◌, arith,
  ltb, Bool-cases, Option-cases,
}
use datn_backend.Prelude.Tables.{find, any, update}
use datn_backend.Text.{Text}
use datn_backend.Domain.{Time}
use datn_backend.Domain.Pairing.{PairingSession, PcAgent, is_pending}
use datn_backend.Errors.{Error, repo, RepoError, Result, ok, err}
use datn_backend.World.{World, Db, Env}
use datn_backend.Action.{Action, ◌>>=◌}
use datn_backend.Action.Transactions.{begun, transaction_ok, transaction_err}
use datn_backend.Repo.PcAgents
use datn_backend.Repo.PairingSessions.{
  has_id, has_code, requested_agent, new_agent, as_confirmed, as_expired, adopt, reject_expired,
  confirm_locked, confirm, find_by_device_code,
}

module _ (env : Env) (user_id : Text) (now : Time) where
  -- What a confirmation of the session does to the tables.
  pub record Confirmed (session : PairingSession) (before after : Db) (agent : PcAgent)
      : Type 0 where
    pub was_pending : is_pending session.status ≡ true
    pub in_time : now ≤ session.expires_at
    pub requested : requested_agent session ≡ some agent.id
    pub owner : agent.user_id ≡ user_id
    pub no_secret : agent.agent_secret_hash ≡ none
    pub unknown : any (PcAgents.has_id agent.id) before.pc_agents ≡ false
    pub wrote : after ≡ record before {
      pc_agents = before.pc_agents ++ agent ∷ [];
      pairing_sessions =
          update (has_id session.id) (as_confirmed user_id agent.id now) before.pairing_sessions;
    }

  adopt_ok :
      (session : PairingSession) (w : World) (r : Result PcAgent)
      → (adopt env user_id now session w).0 ≡ ok r
      → (agent : PcAgent) × (r ≡ ok agent)
        × (requested_agent session ≡ some agent.id)
        × (agent.user_id ≡ user_id)
        × (agent.agent_secret_hash ≡ none)
        × (any (PcAgents.has_id agent.id) w.pc_agents ≡ false)
        × ((adopt env user_id now session w).1.db ≡ record w.db {
          pc_agents = w.pc_agents ++ agent ∷ [];
          pairing_sessions =
              update (has_id session.id) (as_confirmed user_id agent.id now) w.pairing_sessions;
        })
  unfolding adopt
  adopt_ok session w r h = elim (Option-cases (requested_agent session)) [
    | inl e ↦ absurd (ground arith)
    | inr (agent_id, e) ↦
        (let agent = new_agent agent_id user_id (env.db_clock w.steps) session in
          (agent, ground arith, ground arith, refl, refl, ground arith, ground arith))
  ]

  reject_expired_ok :
      (session : PairingSession) (w : World) (r : Result PcAgent)
      → (reject_expired env session w).0 ≡ ok r
      → (r ≡ err (repo RepoError.pairing_session_expired))
        × ((reject_expired env session w).1.db ≡ record w.db {
          pairing_sessions = update (has_id session.id) as_expired w.pairing_sessions;
        })
  unfolding reject_expired
  reject_expired_ok session w r h = (ground arith, ground arith)

  -- A pending session that is confirmed too late.
  pub record Expired (session : PairingSession) (before after : Db) : Type 0 where
    pub was_pending : is_pending session.status ≡ true
    pub late : session.expires_at < now
    pub wrote : after ≡ record before {
      pairing_sessions = update (has_id session.id) as_expired before.pairing_sessions;
    }

  confirm_locked_ok :
      (session : PairingSession) (w : World) (agent : PcAgent)
      → (confirm_locked env user_id now session w).0 ≡ ok (ok agent)
      → Confirmed session w.db (confirm_locked env user_id now session w).1.db agent
  unfolding confirm_locked
  confirm_locked_ok session w agent h = elim (Bool-cases (is_pending session.status)) [
    | inr p ↦ absurd (ground arith)
    | inl p ↦ elim (Bool-cases (ltb session.expires_at now)) [
      | inl late ↦
          (let (other, _) = reject_expired_ok session w (ok agent) (rw (p, late) at h) in
            absurd (cc (other)))
      | inr fresh ↦
          (let (agent', same, requested, owner, no_secret, unknown, wrote) =
              adopt_ok session w (ok agent) (rw (p, fresh) at h) in
            let eq : agent' ≡ agent = cc same in
            subst (Confirmed session w.db (confirm_locked env user_id now session w).1.db) eq (
              rw (p, fresh)
                (record {
                  was_pending = p;
                  in_time = ground arith;
                  requested = requested;
                  owner = owner;
                  no_secret = no_secret;
                  unknown = unknown;
                  wrote = wrote;
                })))
    ]
  ]

  confirm_locked_err :
      (session : PairingSession) (w : World) (e : Error)
      → (confirm_locked env user_id now session w).0 ≡ ok (err e)
      → (e ≡ repo RepoError.pairing_session_expired)
        × Expired session w.db (confirm_locked env user_id now session w).1.db
  unfolding confirm_locked
  confirm_locked_err session w e h = elim (Bool-cases (is_pending session.status)) [
    | inr p ↦ absurd (ground arith)
    | inl p ↦ elim (Bool-cases (ltb session.expires_at now)) [
      | inr fresh ↦
          (let (other, same, _, _, _, _, _) = adopt_ok session w (err e) (rw (p, fresh) at h) in
            absurd (cc same))
      | inl late ↦
          (let (same, wrote) = reject_expired_ok session w (err e) (rw (p, late) at h) in
            (
              ground arith,
              rw (p, late) (record { was_pending = p; late = ground arith; wrote = wrote }),
            ))
    ]
  ]

  abbrev locked : World → World
  locked w = record w { steps = w.steps + 1 + 1 }

  -- Once the session is found.
  abbrev body : Text → Action (Result PcAgent)
  body device_code = do
    session ← find_by_device_code env device_code
    confirm_locked env user_id now session

  body-locked :
      (device_code : Text) (w : World) (r : Result PcAgent)
      → (body device_code (begun env (body device_code) w)).0 ≡ ok r
      → (session : PairingSession) × (find (has_code device_code) w.pairing_sessions ≡ some session)
        × (body device_code (begun env (body device_code) w)
            ≡ confirm_locked env user_id now session (locked w))
  unfolding find_by_device_code
  body-locked device_code w r h =
      elim (Option-cases (find (has_code device_code) w.pairing_sessions)) [
        | inl e ↦ absurd (ground arith)
        | inr (session, e) ↦ elim (Bool-cases (env.db_fails (w.steps + 1))) [
          | inl d ↦ absurd (ground arith)
          | inr d ↦ (session, e, rw (d, e) refl)
        ]
      ]

  -- A confirmation that succeeds found the session of the code pending and in time; it adds the
  -- agent that the session asked for, with the user as its owner and without a secret, which was
  -- not there before, and confirms the session; it writes nothing else.
  pub confirm_ok :
      (device_code : Text) (w : World) (agent : PcAgent)
      → (confirm env device_code user_id now w).0 ≡ ok agent
      → (session : PairingSession) × (find (has_code device_code) w.pairing_sessions ≡ some session)
        × Confirmed session w.db (confirm env device_code user_id now w).1.db agent
  unfolding confirm
  confirm_ok device_code w agent h =
      let (done, wrote) = transaction_ok env (body device_code) w agent h in
      let (session, found, same) = body-locked device_code w (ok agent) done in
      (
        session,
        found,
        rw (wrote, same) (confirm_locked_ok session (locked w) agent (rw same at done)),
      )

  -- A confirmation that fails writes nothing, unless it found the session of the code pending and
  -- too late; then it says that the session is expired, and expires it, and nothing else.
  pub confirm_err :
      (device_code : Text) (w : World) (e : Error)
      → (confirm env device_code user_id now w).0 ≡ err e
      → ((confirm env device_code user_id now w).1.db ≡ w.db)
        ⊎ ((session : PairingSession) × (find (has_code device_code) w.pairing_sessions
              ≡ some session)
            × (e ≡ repo RepoError.pairing_session_expired)
            × Expired session w.db (confirm env device_code user_id now w).1.db)
  unfolding confirm
  confirm_err device_code w e h = elim (transaction_err env (body device_code) w e h) [
    | inl same ↦ inl same
    | inr (done, wrote) ↦
        (let (session, found, same) = body-locked device_code w (err e) done in
          let (expired, late) = confirm_locked_err session (locked w) e (rw same at done) in
          inr (session, found, expired, rw (wrote, same) late))
  ]
