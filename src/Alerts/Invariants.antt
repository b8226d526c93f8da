-- ===== src/Alerts/Invariants.antt =====
-- CreateAlertFromAgent keeps the alerts of one agent and one type apart.
use mathlib.Core.Option
use datn_backend.Prelude.{
  ◌||◌, ◌+◌, ◌-◌, All, ◌≡◌, refl, sym, subst, inl, inr, Option, none, some, Bool-cases,
}
use datn_backend.Prelude.Tables.{find, any, select, newest, find_sound}
use datn_backend.Text.{Text, text_eq_iff, trim_space, is_empty}
use datn_backend.Domain.{Time}
use datn_backend.Domain.Alerts.{Alert, AlertRow}
use datn_backend.Domain.Pairing.{PcAgent}
use datn_backend.Errors.{Result, ok, err}
use datn_backend.World.{World, Db, Env}
use datn_backend.Action.{now, map_err, statement, query, continue}
use datn_backend.Action.Keeps.{Keeps}
use datn_backend.Notification.{Sender}
use datn_backend.Repo.Alerts
use datn_backend.Repo.Alerts.{Joined}
use datn_backend.Repo.PcAgents
use datn_backend.Pairing.Agents.{or_pc_agent_not_found}
use datn_backend.Alerts.{
  CreateAlertFromAgentInput, duplicate_alert_window, new_alert, instant, unless_recent,
  record_alert, create_alert_from_agent, alert_of_agent,
}
use datn_backend.Alerts.Texts.{normalize_alert_type}
use datn_backend.Alerts.Delivery
use datn_backend.Alerts.Keeps.{deliver-Keeps, scanned_db}
use datn_backend.Alerts.Spacing.{Spaced, IsApart, Spaced-append, IsApart-of_newest}

-- The alerts of one agent and type are apart.
abbrev pub HasSpacedAlerts : Db → Type 0
HasSpacedAlerts db = Spaced db.alerts

module _ (env : Env) where
  insert_row-HasSpacedAlerts :
      (row : AlertRow) (db : Db)
      → HasSpacedAlerts db
      → All (λ x. IsApart x row) db.alerts
      → HasSpacedAlerts (Alerts.insert_row row db).1
  unfolding Alerts.insert_row
  insert_row-HasSpacedAlerts row db h apart =
      elim (Bool-cases (any (Alerts.has_id row.id) db.alerts)) [
        | inl e ↦ rw e h
        | inr e ↦ elim (Bool-cases (any (PcAgents.has_id row.pc_agent_id) db.pc_agents)) [
          | inl f ↦ rw (e, f) (Spaced-append db.alerts row h apart)
          | inr f ↦ rw (e, f) h
        ]
      ]

  save-HasSpacedAlerts :
      (alert : Alert) (w : World)
      → HasSpacedAlerts w.db
      → All (λ x. IsApart x (Alerts.row_of env w.steps alert)) w.db.alerts
      → HasSpacedAlerts (Alerts.save env alert w).1.db
  unfolding Alerts.save statement
  save-HasSpacedAlerts alert w h apart = elim (Bool-cases (env.db_fails w.steps)) [
    | inl e ↦ rw e h
    | inr e ↦
        rw (e, scanned_db)
          (insert_row-HasSpacedAlerts (Alerts.row_of env w.steps alert) w.db h apart)
  ]

module _ (env : Env) (notifications : Option Sender) (agent : PcAgent) (alert_type message : Text)
    (at : Time) where
  after_save-Keeps :
      (alert : Alert)
      → Keeps HasSpacedAlerts (Delivery.deliver env notifications agent.user_id alert)
  after_save-Keeps alert = deliver-Keeps env (λ rows db h. h) notifications agent.user_id alert

  continue-HasSpacedAlerts :
      (r : Result Alert × World)
      → HasSpacedAlerts r.1.db
      → HasSpacedAlerts
          (continue (λ alert. Delivery.deliver env notifications agent.user_id alert) r).1.db
  continue-HasSpacedAlerts (ok alert, w) h = (after_save-Keeps alert).at w h
  continue-HasSpacedAlerts (err e, w) h = h

  -- The recent alert that the query finds in the tables.
  abbrev recent_in : Db → Option Joined
  recent_in db = newest Alerts.triggered_at (
      select (Alerts.is_recent agent.id alert_type (at - duplicate_alert_window))
        (Alerts.join_agents db.pc_agents db.alerts))

  unless_recent-HasSpacedAlerts :
      (o : Option Joined) (w : World)
      → find (PcAgents.has_id agent.id) w.pc_agents ≡ some agent
      → recent_in w.db ≡ o
      → HasSpacedAlerts w.db
      → HasSpacedAlerts
          (unless_recent env notifications agent alert_type message at
            (Option.map Alerts.scan_alert o)
            w).1.db
  unfolding unless_recent
  unless_recent-HasSpacedAlerts (some j) w known e h = h
  unless_recent-HasSpacedAlerts none w known e h =
      let alert = new_alert agent alert_type message at in
      continue-HasSpacedAlerts (Alerts.save env alert w) (
        save-HasSpacedAlerts env alert w h
          (IsApart-of_newest w.pc_agents agent (Alerts.row_of env w.steps alert) known w.alerts e))

  record_alert-HasSpacedAlerts :
      (w : World)
      → find (PcAgents.has_id agent.id) w.pc_agents ≡ some agent
      → HasSpacedAlerts w.db
      → HasSpacedAlerts (record_alert env notifications agent alert_type message at w).1.db
  unfolding record_alert Alerts.find_recent_by_agent_and_type query statement
  record_alert-HasSpacedAlerts w known h = elim (Bool-cases (env.db_fails w.steps)) [
    | inl e ↦ rw e h
    | inr e ↦ rw e (
        unless_recent-HasSpacedAlerts (recent_in w.db) (record w { steps = w.steps + 1 }) known refl
          h)
  ]

module _ (env : Env) (notifications : Option Sender) (input : CreateAlertFromAgentInput) where
  instant_db : (o : Option Time) (w : World) → (instant env notifications o w).1.db ≡ w.db
  unfolding instant now
  instant_db none w = refl
  instant_db (some at) w = refl

  alert_of_agent-HasSpacedAlerts :
      (alert_type : Text) (agent : PcAgent) (w : World)
      → find (PcAgents.has_id agent.id) w.pc_agents ≡ some agent
      → HasSpacedAlerts w.db
      → HasSpacedAlerts (alert_of_agent env notifications alert_type input agent w).1.db
  unfolding alert_of_agent
  alert_of_agent-HasSpacedAlerts alert_type agent w known h =
      elim (Bool-cases (is_empty (trim_space agent.user_id))) [
        | inl e ↦ rw e h
        | inr e ↦ rw e (at_instant input.triggered_at)
      ]
    where
      at_instant :
          (o : Option Time)
          → HasSpacedAlerts
              (continue
                (record_alert env notifications agent alert_type input.message)
                (instant env notifications o w)).1.db
      at_instant none =
          record_alert-HasSpacedAlerts env notifications agent alert_type input.message
            (env.clock w.steps) (record w { steps = w.steps + 1 }) known h
      at_instant (some at) =
          record_alert-HasSpacedAlerts env notifications agent alert_type input.message at w known h

  found-HasSpacedAlerts :
      (alert_type pc_agent_id : Text) (o : Option PcAgent) (w : World)
      → find (PcAgents.has_id pc_agent_id) w.pc_agents ≡ o
      → HasSpacedAlerts w.db
      → HasSpacedAlerts
          (continue
            (alert_of_agent env notifications alert_type input)
            (map_err or_pc_agent_not_found (PcAgents.or_agent_not_found o), w)).1.db
  found-HasSpacedAlerts alert_type pc_agent_id none w e h = h
  found-HasSpacedAlerts alert_type pc_agent_id (some agent) w e h =
      let named : agent.id ≡ pc_agent_id =
        (text_eq_iff agent.id pc_agent_id).0 (find_sound _ w.pc_agents agent e) in
      alert_of_agent-HasSpacedAlerts alert_type agent w
        (subst (λ (i : Text). find (PcAgents.has_id i) w.pc_agents ≡ some agent) (sym named) e) h

  -- CreateAlertFromAgent keeps the alerts of each agent and type apart.
  pub create_alert_from_agent-HasSpacedAlerts :
      (w : World)
      → HasSpacedAlerts w.db
      → HasSpacedAlerts (create_alert_from_agent env notifications input w).1.db
  unfolding create_alert_from_agent PcAgents.find_by_id query statement
  create_alert_from_agent-HasSpacedAlerts w h =
      let pc_agent_id = trim_space input.pc_agent_id in
      let alert_type = normalize_alert_type env input.alert_type in
      elim (Bool-cases (is_empty pc_agent_id || is_empty alert_type)) [
        | inl e ↦ rw e h
        | inr e ↦ elim (Bool-cases (env.db_fails w.steps)) [
          | inl f ↦ rw (e, f) h
          | inr f ↦ rw e (
              rw f (
                found-HasSpacedAlerts alert_type pc_agent_id
                  (find (PcAgents.has_id pc_agent_id) w.pc_agents)
                  (record w { steps = w.steps + 1 }) refl h))
        ]
      ]
