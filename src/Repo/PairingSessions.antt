-- ===== src/Repo/PairingSessions.antt =====
-- internal/repo/postgres/pairing_session_repo.go.
pub mod Confirmation
use datn_backend.Prelude.{
  ℕ, ◌+◌, Bool, true, false, not, ◌&&◌, ◌||◌, Option, none, some, List, [], ◌∷◌, ◌++◌,
  if◌then◌else◌, ltb,
}
use datn_backend.Prelude.Tables.{find, any, update}
use datn_backend.Text.{Text, text_eq, is_empty}
use datn_backend.Domain.{Time}
use datn_backend.Domain.Pairing.{
  PcAgent, PairingSession, PairingStatus, pending, confirmed, expired, is_pending, offline,
  disabled,
}
use datn_backend.Errors.{
  Error, repo, unique_violation, missing_pc_agent_id, Result, ok, err, RepoError,
}
use datn_backend.World.{World, Db, Env}
use datn_backend.Action.{
  Action, pure, raise, guard, statement, query, translate, transaction, from_option, lift, ◌>>=◌,
  ◌>>◌,
}
use datn_backend.Repo.PcAgents

abbrev pub has_id : Text → PairingSession → Bool
has_id id session = text_eq session.id id

abbrev pub has_code : Text → PairingSession → Bool
has_code device_code session = text_eq session.device_code device_code

-- WHERE id = $1 AND device_code = $2
abbrev pub has_both : Text → Text → PairingSession → Bool
has_both id device_code session = has_id id session && has_code device_code session

-- WHERE id = $1 AND status = 'pending'
abbrev pub is_pending_id : Text → PairingSession → Bool
is_pending_id id session = has_id id session && is_pending session.status

-- NULL = $1 is not true.
abbrev pub requests_agent : Text → PairingSession → Bool
requests_agent agent_id session = elim session.requested_pc_agent_id [
  | none ↦ false
  | some other ↦ text_eq other agent_id
]

abbrev pub or_session_not_found : Option PairingSession → Result PairingSession
or_session_not_found none = err (repo RepoError.pairing_session_not_found)
or_session_not_found (some session) = ok session

-- The columns of the INSERT; the others have their defaults.
abbrev pub session_row : Text → Text → Time → PairingSession → PairingSession
session_row id agent_id created session = record session {
  id = id;
  requested_pc_agent_id = some agent_id;
  confirmed_by_user_id = none;
  pc_agent_id = none;
  confirmed_at = none;
  created_at = created;
}

-- The primary key, the unique code and the unique identifier of the agent.
abbrev pub session_conflicts : Text → PairingSession → List PairingSession → Bool
session_conflicts agent_id row sessions =
    any (has_id row.id) sessions
    || any (has_code row.device_code) sessions
    || any (requests_agent agent_id) sessions

unfoldable pub insert_session : Env → PairingSession → ℕ → Db → Result PairingSession × Db
insert_session env session n db =
    let agent_id = env.gen_random_uuid_again n in
    let row = session_row (env.gen_random_uuid n) agent_id (env.db_clock n) session in
    if session_conflicts agent_id row db.pairing_sessions
    then (err unique_violation, db)
    else (ok row, record db { pairing_sessions = db.pairing_sessions ++ row ∷ [] })

abbrev pub or_code_exists : Error → Error
or_code_exists unique_violation = repo RepoError.pairing_session_code_exists
or_code_exists e = e

abbrev pub as_expired : PairingSession → PairingSession
as_expired session = record session { status = expired }

abbrev pub as_confirmed : Text → Text → Time → PairingSession → PairingSession
as_confirmed user_id agent_id at session = record session {
  status = confirmed;
  confirmed_by_user_id = some user_id;
  pc_agent_id = some agent_id;
  confirmed_at = some at;
}

-- UPDATE … SET f WHERE p RETURNING …, where at most one row has p.
abbrev pub update_sessions :
    (PairingSession → Bool)
    → (PairingSession → PairingSession)
    → Db
    → Option PairingSession
    → Result PairingSession × Db
update_sessions p f db none = (err (repo RepoError.pairing_session_not_found), db)
update_sessions p f db (some session) =
    (ok (f session), record db { pairing_sessions = update p f db.pairing_sessions })

-- The agent of a session that is confirmed.
abbrev pub new_agent : Text → Text → Time → PairingSession → PcAgent
new_agent agent_id user_id created session = record {
  id = agent_id;
  user_id = user_id;
  device_name = session.device_name;
  os_type = session.os_type;
  agent_secret_hash = none;
  status = offline;
  protection_status = disabled;
  last_seen_at = none;
  created_at = created;
}

-- session.RequestedPCAgentID == nil || *session.RequestedPCAgentID == ""
abbrev pub requested_agent : PairingSession → Option Text
requested_agent session = elim session.requested_pc_agent_id [
  | none ↦ none
  | some id ↦ if is_empty id then none else some id
]

module _ (env : Env) where
  unfoldable pub create : PairingSession → Action PairingSession
  unfolding statement insert_session
  create session = translate or_code_exists (statement env (insert_session env session))

  unfoldable pub find_by_device_code : Text → Action PairingSession
  unfolding query
  find_by_device_code device_code =
      query env λ db. or_session_not_found (find (has_code device_code) db.pairing_sessions)

  unfoldable pub find_by_id_and_device_code : Text → Text → Action PairingSession
  unfolding query
  find_by_id_and_device_code id device_code =
      query env λ db. or_session_not_found (find (has_both id device_code) db.pairing_sessions)

  unfoldable pub exists_by_device_code : Text → Action Bool
  unfolding query
  exists_by_device_code device_code =
      query env λ db. ok (any (has_code device_code) db.pairing_sessions)

  unfoldable pub update_session :
      (PairingSession → Bool) → (PairingSession → PairingSession) → Action PairingSession
  unfolding statement
  update_session p f = statement env λ n db. update_sessions p f db (find p db.pairing_sessions)

  unfoldable pub expire : Text → Action PairingSession
  unfolding update_session
  expire id = update_session (is_pending_id id) as_expired

  -- The insertion of the agent and the update of the session.
  unfoldable pub adopt : Text → Time → PairingSession → Action (Result PcAgent)
  unfolding statement update_session PcAgents.insert_agent
  adopt user_id now session = do
    agent_id ← lift (from_option missing_pc_agent_id (requested_agent session))
    agent ←
        statement env
          λ n db. PcAgents.insert_agent (new_agent agent_id user_id (env.db_clock n) session) db
    update_session (has_id session.id) (as_confirmed user_id agent.id now)
    pure (ok agent)

  -- The expiry is committed, and then the error returned.
  unfoldable pub reject_expired : PairingSession → Action (Result PcAgent)
  unfolding update_session
  reject_expired session = do
    update_session (has_id session.id) as_expired
    pure (err (repo RepoError.pairing_session_expired))

  unfoldable pub confirm_locked : Text → Time → PairingSession → Action (Result PcAgent)
  confirm_locked user_id now session = do
    guard (is_pending session.status) (repo RepoError.pairing_session_not_pending)
    if ltb session.expires_at now then reject_expired session else adopt user_id now session

  -- The session that Go returns beside the agent is not used by any caller.
  unfoldable pub confirm : Text → Text → Time → Action PcAgent
  unfolding find_by_device_code transaction
  confirm device_code user_id now =
      transaction env
        (do session ← find_by_device_code device_code; confirm_locked user_id now session)
