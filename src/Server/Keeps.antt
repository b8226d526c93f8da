-- ===== src/Server/Keeps.antt =====
-- What every step of the server keeps.
use datn_backend.Prelude.{
  ◌≡◌, refl, inl, inr, false, [], ◌∷◌, ◌++◌, Bool-cases, Bool, Option, none, some, List,
}
use datn_backend.Prelude.Tables.{update, any, find}
use datn_backend.Text.{Text}
use datn_backend.Domain.Pairing.{MobileDevice, PcAgent, PairingSession}
use datn_backend.Errors.{err}
use datn_backend.World.{World, Db, Env}
use datn_backend.Action.{statement}
use datn_backend.Action.Keeps.{Keeps, Keeps-statement, if-Keeps, keeps_rules}
use datn_backend.Repo.Users
use datn_backend.Repo.PcAgents
use datn_backend.Repo.PcAgents.{
  has_id, is_of_agent, without_agent, without_owned, update_agents, insert_agent, is_alert_of,
}
use datn_backend.Repo.PairingSessions
use datn_backend.Repo.PairingSessions.{update_sessions}
use datn_backend.Repo.MobileDevices
use datn_backend.Auth.Requests.Statements as AuthStatements
use datn_backend.Pairing.Requests.Invariants as PairingInvariants
use datn_backend.Pairing.Agents.{delete_pc_agent}
use datn_backend.Pairing.Devices.{register_mobile_device}
use datn_backend.Alerts.{CreateAlertFromAgentInput, create_alert_from_agent}
use datn_backend.Alerts.Delivery.{Created}
use datn_backend.Mqtt.Publish.{Published}
use datn_backend.Http.Invariants.{serve-Leaves}
use datn_backend.Server.{
  MqttStatusPayload, handle_mqtt_alert, handle_mqtt_status, on_status, no_failure,
}
use datn_backend.Server.Steps.{Process, Step, Reach, here, next}

-- What the writing statements do to the agents and the alerts; sessions and devices change at will.
pub record Rows (P : Db → Type 0) : Type 0 where
  pub agent_insertion :
      (row : PcAgent) (db : Db)
      → any (has_id row.id) db.pc_agents ≡ false
      → P db
      → P (record db { pc_agents = db.pc_agents ++ row ∷ [] })
  pub agent_update :
      (q : PcAgent → Bool) (f : PcAgent → PcAgent) (db : Db)
      → ((agent : PcAgent) → (f agent).id ≡ agent.id)
      → P db
      → P (record db { pc_agents = update q f db.pc_agents })
  pub agent_removal : (id user_id : Text) (db : Db) → P db → P (without_owned id user_id db)
  pub session_rows :
      (rows : List PairingSession) (db : Db) → P db → P (record db { pairing_sessions = rows })
  pub device_rows :
      (rows : List MobileDevice) (db : Db) → P db → P (record db { mobile_devices = rows })

module _ {P : Db → Type 0} (env : Env) (rules : Rows P) where
  update_session-Keeps :
      (p : PairingSession → Bool) (f : PairingSession → PairingSession)
      → Keeps P (PairingSessions.update_session env p f)
  unfolding PairingSessions.update_session
  update_session-Keeps p f = Keeps-statement env _ λ n db h. kept db (find p db.pairing_sessions) h
    where
      kept : (db : Db) (found : Option PairingSession) → P db → P (update_sessions p f db found).1
      kept db none h = h
      kept db (some session) h = rules.session_rows _ db h

  update_where-Keeps :
      (p : PcAgent → Bool) (f : PcAgent → PcAgent)
      → ((agent : PcAgent) → (f agent).id ≡ agent.id)
      → Keeps P (PcAgents.update_where env p f)
  unfolding PcAgents.update_where
  update_where-Keeps p f same = Keeps-statement env _ λ n db h. kept db (find p db.pc_agents) h
    where
      kept : (db : Db) (found : Option PcAgent) → P db → P (update_agents p f db found).1
      kept db none h = h
      kept db (some agent) h = rules.agent_update p f db same h

  pairing_rules : PairingInvariants.Rules P env
  unfolding insert_agent PairingSessions.insert_session
  pairing_rules = record {
    agent_insertion = λ row db h. elim (Bool-cases (any (has_id row.id) db.pc_agents)) [
      | inl e ↦ rw e h
      | inr e ↦ rw e (
          if-Keeps P (any (Users.has_id row.user_id) db.users) _ (err _, db)
            (rules.agent_insertion row db e h) h)
    ];
    session_insertion = λ session n db h. if-Keeps P _ (err _, db) _ h (rules.session_rows _ db h);
    expiry = λ p. update_session-Keeps p _;
    confirmation = λ p user_id agent_id at. update_session-Keeps p _;
    secret = λ agent_id new_hash. update_where-Keeps _ _ (λ a. refl);
    verification = λ p at. update_where-Keeps p _ (λ a. refl);
    protection = λ p status. update_where-Keeps p _ (λ a. refl);
  }

  delete-Keeps : (id user_id : Text) → Keeps P (PcAgents.delete_by_id_and_user_id env id user_id)
  unfolding PcAgents.delete_by_id_and_user_id
  delete-Keeps id user_id =
      Keeps-statement env _
        λ n db h. if-Keeps P _ _ (err _, db) (rules.agent_removal id user_id db h) h

  delete_pc_agent-Keeps : (user_id id : Text) → Keeps P (delete_pc_agent env user_id id)
  unfolding delete_pc_agent
  delete_pc_agent-Keeps user_id id = search (keeps_rules, delete-Keeps) depth 20

  upsert_row-P :
      (id : Text) (device : MobileDevice) (db : Db) (o : Option MobileDevice)
      → P db
      → P (MobileDevices.upsert_row id device db o).1
  unfolding MobileDevices.upsert_row
  upsert_row-P id device db none h = if-Keeps P _ (err _, db) _ h (rules.device_rows _ db h)
  upsert_row-P id device db (some row) h = rules.device_rows _ db h

  insert_or_update-Keeps :
      (device : MobileDevice) → Keeps P (statement env (MobileDevices.insert_or_update env device))
  unfolding MobileDevices.insert_or_update
  insert_or_update-Keeps device = Keeps-statement env _ λ n db h.
      if-Keeps P (any (Users.has_id device.user_id) db.users) _ (err _, db)
        (upsert_row-P _ device db _ h) h

  clean_up-Keeps : (saved : MobileDevice) → Keeps P (MobileDevices.clean_up env saved)
  unfolding MobileDevices.clean_up
  clean_up-Keeps saved = Keeps-statement env _ (λ n db h. rules.device_rows _ db h)

  register_mobile_device-Keeps :
      (user_id fcm_token platform : Text)
      → Keeps P (register_mobile_device env user_id fcm_token platform)
  unfolding register_mobile_device MobileDevices.upsert
  register_mobile_device-Keeps user_id fcm_token platform =
      search (keeps_rules, insert_or_update-Keeps, clean_up-Keeps) depth 20

module _ {P : Db → Type 0} (p : Process) (on_auth : AuthStatements.Rules P) (rows : Rows P)
    (on_alert : (input : CreateAlertFromAgentInput)
      → Keeps P (create_alert_from_agent p.env p.notifications input)) where
  no_failure-Keeps : (created : Created) → Keeps P (no_failure created)
  no_failure-Keeps created = search keeps_rules

  handle_mqtt_alert-Keeps :
      (message : Published) → Keeps P (handle_mqtt_alert p.env p.notifications p.payloads message)
  unfolding handle_mqtt_alert
  handle_mqtt_alert-Keeps message = search (keeps_rules, on_alert, no_failure-Keeps) depth 20

  on_status-Keeps :
      (topic : Text) (payload : MqttStatusPayload)
      → Keeps P (on_status p.env p.notifications p.payloads topic payload)
  unfolding on_status
  on_status-Keeps topic payload = search (keeps_rules, on_alert, no_failure-Keeps) depth 20

  handle_mqtt_status-Keeps :
      (message : Published) → Keeps P (handle_mqtt_status p.env p.notifications p.payloads message)
  unfolding handle_mqtt_status
  handle_mqtt_status-Keeps message = search (keeps_rules, on_status-Keeps) depth 20

  Step-Keeps : {w v : World} → Step p w v → P w.db → P v.db
  Step-Keeps (Step.http w route request) h =
      (serve-Leaves p.env p.codec p.auth on_auth (pairing_rules p.env rows)
          (delete_pc_agent-Keeps p.env rows) (register_mobile_device-Keeps p.env rows) route
          request).at
        w h
  Step-Keeps (Step.alert w message) h = (handle_mqtt_alert-Keeps message).at w h
  Step-Keeps (Step.status w message) h = (handle_mqtt_status-Keeps message).at w h
  Step-Keeps (Step.elapse w n) h = h

  pub Reach-Keeps : {w v : World} → P w.db → Reach p w v → P v.db
  Reach-Keeps h here = h
  Reach-Keeps h (next r s) = Step-Keeps s (Reach-Keeps h r)
