-- ===== src/Repo/PcAgents.antt =====
-- internal/repo/postgres/pc_agent_repo.go.
use datn_backend.Prelude.{
  Bool, true, false, not, ◌&&◌, Option, none, some, [], ◌∷◌, ◌++◌, if◌then◌else◌, List,
}
use datn_backend.Prelude.Tables.{find, any, update, delete, select, order_by}
use datn_backend.Text.{Text, text_eq}
use datn_backend.Domain.{Time, is_some}
use datn_backend.Domain.Alerts.{AlertRow}
use datn_backend.Domain.Pairing.{PcAgent, PairingSession, online, ProtectionStatus}
use datn_backend.Errors.{repo, unique_violation, db_failed, Result, ok, err, RepoError}
use datn_backend.World.{Db, Env}
use datn_backend.Action.{Action, pure, raise, statement, query, inspect, ◌>>=◌}
use datn_backend.Repo.Users

abbrev pub has_id : Text → PcAgent → Bool
has_id id agent = text_eq agent.id id

-- WHERE user_id = $1
abbrev pub is_of_user : Text → PcAgent → Bool
is_of_user user_id agent = text_eq agent.user_id user_id

-- WHERE id = $1 AND user_id = $2
abbrev pub is_owned : Text → Text → PcAgent → Bool
is_owned id user_id agent = has_id id agent && text_eq agent.user_id user_id

-- WHERE id = $1 AND agent_secret_hash IS NULL
abbrev pub lacks_secret : Text → PcAgent → Bool
lacks_secret id agent = has_id id agent && not (is_some agent.agent_secret_hash)

abbrev pub or_agent_not_found : Option PcAgent → Result PcAgent
or_agent_not_found none = err (repo RepoError.pc_agent_not_found)
or_agent_not_found (some agent) = ok agent

abbrev pub with_secret_hash : Text → PcAgent → PcAgent
with_secret_hash secret_hash agent = record agent { agent_secret_hash = some secret_hash }

abbrev pub verified : Time → PcAgent → PcAgent
verified at agent = record agent { status = online; last_seen_at = some at }

abbrev pub with_protection : ProtectionStatus → PcAgent → PcAgent
with_protection protection_status agent = record agent { protection_status = protection_status }

-- UPDATE … SET f WHERE p RETURNING …, where at most one row has p.
abbrev pub update_agents :
    (PcAgent → Bool) → (PcAgent → PcAgent) → Db → Option PcAgent → Result PcAgent × Db
update_agents p f db none = (err (repo RepoError.pc_agent_not_found), db)
update_agents p f db (some agent) =
    (ok (f agent), record db { pc_agents = update p f db.pc_agents })

-- The primary key, and the foreign key of the owner.
unfoldable pub insert_agent : PcAgent → Db → Result PcAgent × Db
insert_agent agent db =
    if any (has_id agent.id) db.pc_agents
    then (err unique_violation, db)
    else if any (Users.has_id agent.user_id) db.users
    then (ok agent, record db { pc_agents = db.pc_agents ++ agent ∷ [] })
    else (err db_failed, db)

-- ON DELETE SET NULL of pairing_sessions.pc_agent_id.
abbrev pub is_of_agent : Text → PairingSession → Bool
is_of_agent id session = elim session.pc_agent_id [
  | none ↦ false
  | some agent_id ↦ text_eq agent_id id
]

abbrev pub without_agent : PairingSession → PairingSession
without_agent session = record session { pc_agent_id = none }

-- ON DELETE CASCADE of alerts.pc_agent_id.
abbrev pub is_alert_of : Text → AlertRow → Bool
is_alert_of id alert = text_eq alert.pc_agent_id id

abbrev pub without_owned : Text → Text → Db → Db
without_owned id user_id db = record db {
  pc_agents = delete (is_owned id user_id) db.pc_agents;
  pairing_sessions = update (is_of_agent id) without_agent db.pairing_sessions;
  alerts = delete (is_alert_of id) db.alerts;
}

module _ (env : Env) where
  unfoldable pub create : PcAgent → Action PcAgent
  unfolding statement insert_agent
  create agent = statement env λ n db.
      insert_agent
        (record agent {
          id = env.gen_random_uuid n;
          last_seen_at = none;
          created_at = env.db_clock n;
        })
        db

  unfoldable pub find_by_id : Text → Action PcAgent
  unfolding query
  find_by_id id = query env λ db. or_agent_not_found (find (has_id id) db.pc_agents)

  -- ORDER BY device_name ASC
  unfoldable pub find_by_user_id : Text → Action (List PcAgent)
  unfolding query
  find_by_user_id user_id = query env λ db. ok (
      order_by (λ a b. env.collate a.device_name b.device_name)
        (select (is_of_user user_id) db.pc_agents))

  unfoldable pub update_where : (PcAgent → Bool) → (PcAgent → PcAgent) → Action PcAgent
  unfolding statement
  update_where p f = statement env λ n db. update_agents p f db (find p db.pc_agents)

  -- No row was updated: the agent has a secret already, or is gone.
  unfoldable pub unless_set : Text → Result PcAgent → Action (PcAgent × Bool)
  unfolding find_by_id
  unless_set id (ok agent) = pure (agent, true)
  unless_set id (err (repo RepoError.pc_agent_not_found)) = do
    agent ← find_by_id id
    pure (agent, false)
  unless_set id (err e) = raise e

  -- The Boolean says whether this call has set the hash.
  unfoldable pub set_agent_secret_hash_if_empty : Text → Text → Action (PcAgent × Bool)
  unfolding update_where statement unless_set
  set_agent_secret_hash_if_empty id secret_hash =
      inspect (unless_set id) (update_where (lacks_secret id) (with_secret_hash secret_hash))

  unfoldable pub mark_verified : Text → Time → Action PcAgent
  unfolding update_where statement
  mark_verified id verified_at = update_where (has_id id) (verified verified_at)

  unfoldable pub update_protection_status_by_id : Text → ProtectionStatus → Action PcAgent
  unfolding update_where statement
  update_protection_status_by_id id protection_status =
      update_where (has_id id) (with_protection protection_status)

  unfoldable pub update_protection_status_by_id_and_user_id :
      Text → Text → ProtectionStatus → Action PcAgent
  unfolding update_where statement
  update_protection_status_by_id_and_user_id id user_id protection_status =
      update_where (is_owned id user_id) (with_protection protection_status)

  unfoldable pub delete_by_id_and_user_id : Text → Text → Action (Unit {0})
  unfolding statement
  delete_by_id_and_user_id id user_id = statement env λ n db.
      if any (is_owned id user_id) db.pc_agents
      then (ok tt, without_owned id user_id db)
      else (err (repo RepoError.pc_agent_not_found), db)

  -- The columns that Save sets.
  abbrev saved : PcAgent → PcAgent → PcAgent
  saved agent row = record row {
    device_name = agent.device_name;
    status = agent.status;
    protection_status = agent.protection_status;
    last_seen_at = agent.last_seen_at;
  }

  unfoldable pub save : PcAgent → Action (Unit {0})
  unfolding statement
  save agent = statement env λ n db.
      if any (has_id agent.id) db.pc_agents
      then (ok tt, record db { pc_agents = update (has_id agent.id) (saved agent) db.pc_agents })
      else (err (repo RepoError.pc_agent_not_found), db)
