-- ===== src/Alerts/Keeps.antt =====
-- What the alert operations keep of the tables.
use datn_backend.Prelude.{
  ◌++◌, true, inl, inr, Bool-cases, ◌≡◌, [], ◌∷◌, refl, Option, none, some, List,
}
use datn_backend.Prelude.Tables.{any}
use datn_backend.Text.{Text}
use datn_backend.Domain.{Time}
use datn_backend.Domain.Alerts.{Alert, AlertRow}
use datn_backend.Domain.Pairing.{MobileDevice, PcAgent}
use datn_backend.Errors.{Result, ok, err, unique_violation}
use datn_backend.World.{Db, Env}
use datn_backend.Action.Keeps.{Keeps, Keeps-statement, Keeps-bind, if-Keeps, keeps_rules}
use datn_backend.Notification.{Sender, SendFailure}
use datn_backend.Repo.Alerts
use datn_backend.Repo.Alerts.{Joined}
use datn_backend.Repo.MobileDevices
use datn_backend.Repo.PcAgents
use datn_backend.Alerts.{
  CreateAlertFromAgentInput, instant, unless_recent, record_alert, create_alert_from_agent,
  alert_of_agent,
}
use datn_backend.Alerts.Delivery

pub scanned_db : (alert : Alert) (r : Result AlertRow × Db) → (Alerts.scanned alert r).1 ≡ r.1
scanned_db alert (ok row, db) = refl
scanned_db alert (err e, db) = refl

-- An invariant that says nothing of the devices.
module _ {P : Db → Type 0} (env : Env)
    (devices : (rows : List MobileDevice) (db : Db)
      → P db
      → P (record db { mobile_devices = rows })) where
  after_delete-Keeps :
      (token : Text) (removed : List Text) (r : Result (Unit {0}))
      → Keeps P (Delivery.after_delete token removed r)
  after_delete-Keeps token removed (ok done) = search keeps_rules
  after_delete-Keeps token removed (err e) = search keeps_rules

  delete_token-Keeps : (token : Text) → Keeps P (MobileDevices.delete_by_fcm_token env token)
  unfolding MobileDevices.delete_by_fcm_token
  delete_token-Keeps token = Keeps-statement env _ (λ n db h. devices _ db h)

  cleanup_token-Keeps :
      (removed : List Text) (failure : SendFailure)
      → Keeps P (Delivery.cleanup_token env removed failure)
  unfolding Delivery.cleanup_token
  cleanup_token-Keeps removed failure =
      search (keeps_rules, after_delete-Keeps, delete_token-Keeps) depth 20

  cleanup_tokens-Keeps :
      (removed : List Text) (failures : List SendFailure)
      → Keeps P (Delivery.cleanup_tokens env removed failures)
  unfolding Delivery.cleanup_tokens
  cleanup_tokens-Keeps removed [] = search keeps_rules
  cleanup_tokens-Keeps removed (failure ∷ failures) =
      Keeps-bind _ _ (cleanup_token-Keeps removed failure)
        (λ more. cleanup_tokens-Keeps more failures)

  send_alert-Keeps :
      (sender : Sender) (alert : Alert) (rows : List MobileDevice)
      → Keeps P (Delivery.send_alert env sender alert rows)
  unfolding Delivery.send_alert
  send_alert-Keeps sender alert rows = record { at = λ w h. h }

  cleanup-Keeps :
      (failures : List SendFailure)
      → Keeps P (Delivery.cleanup_invalid_notification_tokens env failures)
  unfolding Delivery.cleanup_invalid_notification_tokens
  cleanup-Keeps failures = search (keeps_rules, cleanup_tokens-Keeps) depth 20

  notify-Keeps :
      (sender : Sender) (alert : Alert) (rows : List MobileDevice)
      → Keeps P (Delivery.notify env sender alert rows)
  unfolding Delivery.notify
  notify-Keeps sender alert rows = search (keeps_rules, send_alert-Keeps, cleanup-Keeps) depth 20

  notify_if_any-Keeps :
      (notifications : Option Sender) (alert : Alert) (rows : List MobileDevice)
      → Keeps P (Delivery.notify_if_any env notifications alert rows)
  notify_if_any-Keeps none alert rows = search keeps_rules
  notify_if_any-Keeps (some sender) alert [] = search keeps_rules
  notify_if_any-Keeps (some sender) alert (device ∷ rows) =
      notify-Keeps sender alert (device ∷ rows)

  pub deliver-Keeps :
      (notifications : Option Sender) (user_id : Text) (alert : Alert)
      → Keeps P (Delivery.deliver env notifications user_id alert)
  unfolding Delivery.deliver MobileDevices.find_by_user_id
  deliver-Keeps notifications user_id alert =
      search (keeps_rules, notify_if_any-Keeps notifications alert) depth 20

-- An invariant that says nothing of the devices, and lets an alert of a known agent in.
module _ {P : Db → Type 0} (env : Env)
    (devices : (rows : List MobileDevice) (db : Db)
      → P db
      → P (record db { mobile_devices = rows }))
    (insertion : (row : AlertRow) (db : Db)
      → any (PcAgents.has_id row.pc_agent_id) db.pc_agents ≡ true
      → P db
      → P (record db { alerts = db.alerts ++ row ∷ [] })) where
  insert_row-kept : (row : AlertRow) (db : Db) → P db → P (Alerts.insert_row row db).1
  unfolding Alerts.insert_row
  insert_row-kept row db h =
      if-Keeps P (any (Alerts.has_id row.id) db.alerts) (err unique_violation, db) _ h
        (elim (Bool-cases (any (PcAgents.has_id row.pc_agent_id) db.pc_agents)) [
          | inl e ↦ rw e (insertion row db e h)
          | inr e ↦ rw e h
        ])

  save-Keeps : (alert : Alert) → Keeps P (Alerts.save env alert)
  unfolding Alerts.save
  save-Keeps alert = Keeps-statement env _ λ n db h.
      rw (scanned_db alert (Alerts.insert_row (Alerts.row_of env n alert) db))
        (insert_row-kept (Alerts.row_of env n alert) db h)

  module _ (notifications : Option Sender) where
    unless_recent-Keeps :
        (agent : PcAgent) (alert_type message : Text) (at : Time) (o : Option Alert)
        → Keeps P (unless_recent env notifications agent alert_type message at o)
    unfolding unless_recent
    unless_recent-Keeps agent alert_type message at (some recent) = search keeps_rules
    unless_recent-Keeps agent alert_type message at none =
        search (keeps_rules, save-Keeps, deliver-Keeps env devices notifications agent.user_id)
          depth 20

    record_alert-Keeps :
        (agent : PcAgent) (alert_type message : Text) (at : Time)
        → Keeps P (record_alert env notifications agent alert_type message at)
    unfolding record_alert
    record_alert-Keeps agent alert_type message at =
        search (keeps_rules, unless_recent-Keeps agent alert_type message at) depth 20

    instant-Keeps : (o : Option Time) → Keeps P (instant env notifications o)
    unfolding instant
    instant-Keeps none = search keeps_rules
    instant-Keeps (some at) = search keeps_rules

    alert_of_agent-Keeps :
        (alert_type : Text) (input : CreateAlertFromAgentInput) (agent : PcAgent)
        → Keeps P (alert_of_agent env notifications alert_type input agent)
    unfolding alert_of_agent
    alert_of_agent-Keeps alert_type input agent =
        search (keeps_rules, instant-Keeps, record_alert-Keeps) depth 20

    pub create_alert_from_agent-Keeps :
        (input : CreateAlertFromAgentInput)
        → Keeps P (create_alert_from_agent env notifications input)
    unfolding create_alert_from_agent
    create_alert_from_agent-Keeps input = search (keeps_rules, alert_of_agent-Keeps) depth 20
