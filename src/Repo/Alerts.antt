-- ===== src/Repo/Alerts.antt =====
-- internal/repo/postgres/alert_repo.go.
use datn_backend.Prelude.{
  ℕ, Bool, ◌&&◌, Option, none, some, List, [], ◌∷◌, ◌++◌, map, ltb, leb, take, if◌then◌else◌,
}
use mathlib.Core.Option
use datn_backend.Prelude.Tables.{find, any, select, newest, order_by}
use datn_backend.Text.{Text, text_eq}
use datn_backend.Domain.{Time}
use datn_backend.Domain.Alerts.{Alert, AlertRow, alert_message}
use datn_backend.Domain.Pairing.{PcAgent}
use datn_backend.Errors.{unique_violation, db_failed, Result, ok, err}
use datn_backend.World.{Db, Env}
use datn_backend.Action.{Action, statement, query}
use datn_backend.Repo.PcAgents

abbrev pub has_id : Text → AlertRow → Bool
has_id id row = text_eq row.id id

-- A row of the INNER JOIN.
abbrev pub Joined : Type 0
Joined = AlertRow × PcAgent

abbrev with_agent : AlertRow → Option PcAgent → List Joined → List Joined
with_agent row none rest = rest
with_agent row (some agent) rest = (row, agent) ∷ rest

-- alerts INNER JOIN pc_agents ON pc_agents.id = alerts.pc_agent_id
unfoldable pub join_agents : List PcAgent → List AlertRow → List Joined
join_agents agents [] = []
join_agents agents (row ∷ rows) =
    with_agent row (find (PcAgents.has_id row.pc_agent_id) agents) (join_agents agents rows)

-- The columns that the queries select, and the message of the type.
unfoldable pub scan_alert : Joined → Alert
scan_alert (row, agent) = record {
  id = row.id;
  agent_id = row.pc_agent_id;
  agent_name = agent.device_name;
  user_id = agent.user_id;
  type = row.alert_type;
  message = alert_message row.alert_type;
  created_at = some row.triggered_at;
}

abbrev pub triggered_at : Joined → Time
triggered_at j = j.0.triggered_at

-- WHERE pc_agents.user_id = $1
abbrev pub is_of_user : Text → Joined → Bool
is_of_user user_id j = text_eq j.1.user_id user_id

-- WHERE alerts.pc_agent_id = $1 AND alerts.alert_type = $2 AND alerts.triggered_at >= $3
abbrev pub is_recent : Text → Text → Time → Joined → Bool
is_recent agent_id alert_type since j =
    text_eq j.0.pc_agent_id agent_id
    && text_eq j.0.alert_type alert_type
    && leb since j.0.triggered_at

-- The primary key, and the foreign key of the agent.
unfoldable pub insert_row : AlertRow → Db → Result AlertRow × Db
insert_row row db =
    if any (has_id row.id) db.alerts
    then (err unique_violation, db)
    else if any (PcAgents.has_id row.pc_agent_id) db.pc_agents
    then (ok row, record db { alerts = db.alerts ++ row ∷ [] })
    else (err db_failed, db)

abbrev pub or_now : Time → Option Time → Time
or_now now none = now
or_now now (some at) = at

abbrev pub row_of : Env → ℕ → Alert → AlertRow
row_of env n alert = record {
  id = env.gen_random_uuid n;
  pc_agent_id = alert.agent_id;
  alert_type = alert.type;
  triggered_at = or_now (env.db_clock n) alert.created_at;
}

-- RETURNING id, triggered_at
abbrev pub scanned : Alert → Result AlertRow × Db → Result Alert × Db
scanned alert (ok row, db) =
    (ok (record alert { id = row.id; created_at = some row.triggered_at }), db)
scanned alert (err e, db) = (err e, db)

module _ (env : Env) where
  -- The alert with the columns that the database has given.
  unfoldable pub save : Alert → Action Alert
  unfolding statement
  save alert = statement env λ n db. scanned alert (insert_row (row_of env n alert) db)

  -- ORDER BY alerts.triggered_at DESC LIMIT 100
  unfoldable pub find_by_user_id : Text → Action (List Alert)
  unfolding query
  find_by_user_id user_id = query env λ db. ok (
      map scan_alert (
        take 100 (
          order_by (λ i j. ltb (triggered_at j) (triggered_at i))
            (select (is_of_user user_id) (join_agents db.pc_agents db.alerts)))))

  -- ORDER BY alerts.triggered_at DESC LIMIT 1
  unfoldable pub find_recent_by_agent_and_type : Text → Text → Time → Action (Option Alert)
  unfolding query
  find_recent_by_agent_and_type agent_id alert_type since = query env λ db. ok (
      Option.map scan_alert (
        newest triggered_at
          (select (is_recent agent_id alert_type since) (join_agents db.pc_agents db.alerts))))
