-- ===== src/Alerts/Recent.antt =====
-- The alerts that FindRecentByAgentAndType finds after one is stored.
use mathlib.Core.Option
use datn_backend.Prelude.{
  ℕ, ◌+◌, ◌-◌, ◌≡◌, ◌≢◌, refl, inl, inr, Bool, true, Option, none, some, List, [], ◌∷◌, ◌++◌, arith,
  Bool-cases, Option-cases,
}
use datn_backend.Prelude.Tables.{find, any, select, newest}
use datn_backend.Text.{Text, text_eq_refl}
use datn_backend.Domain.{Time}
use datn_backend.Domain.Alerts.{Alert, AlertRow}
use datn_backend.Domain.Pairing.{PcAgent}
use datn_backend.Errors.{Result, ok, err}
use datn_backend.World.{World, Db, Env}
use datn_backend.Action.{statement, query, continue}
use datn_backend.Notification.{Sender}
use datn_backend.Repo.Alerts
use datn_backend.Repo.Alerts.{Joined, join_agents, is_recent, triggered_at, row_of}
use datn_backend.Repo.PcAgents
use datn_backend.Alerts.{duplicate_alert_window, new_alert, unless_recent, record_alert}
use datn_backend.Alerts.Delivery
use datn_backend.Alerts.Delivery.{Created}
use datn_backend.Alerts.Keeps.{deliver-Keeps, scanned_db}

newest-cons {ℓ} : {A : Type ℓ} (key : A → ℕ) (xs : List A) → xs ≢ [] → newest key xs ≢ none
unfolding newest
newest-cons key [] some_row h = some_row refl
newest-cons key (x ∷ xs) some_row h = cc h

-- A row of the agent that was just added is found.
select-join-append :
    (p : Joined → Bool) (agents : List PcAgent) (rows : List AlertRow) (row : AlertRow)
    (agent : PcAgent)
    → find (PcAgents.has_id row.pc_agent_id) agents ≡ some agent
    → p (row, agent) ≡ true
    → select p (join_agents agents (rows ++ row ∷ [])) ≢ []
unfolding select join_agents
select-join-append p agents [] row agent known fits h = ground arith
select-join-append p agents (x ∷ rows) row agent known fits h =
    elim (Option-cases (find (PcAgents.has_id x.pc_agent_id) agents)) [
      | inl e ↦ select-join-append p agents rows row agent known fits (rw e at h)
      | inr (a, e) ↦ elim (Bool-cases (p (x, a))) [
        | inl t ↦ absurd (ground arith)
        | inr t ↦ select-join-append p agents rows row agent known fits (ground arith)
      ]
    ]

module _ (env : Env) (notifications : Option Sender) (agent : PcAgent) (alert_type message : Text)
    (at : Time) where
  abbrev recent_in : Db → Option Joined
  recent_in db = newest triggered_at (
      select (is_recent agent.id alert_type (at - duplicate_alert_window))
        (join_agents db.pc_agents db.alerts))

  -- The agent is in the tables, with an alert of the type that is recent at the instant.
  abbrev pub HasRecent : Db → Type 0
  HasRecent db = (find (PcAgents.has_id agent.id) db.pc_agents ≡ some agent) × (recent_in db ≢ none)

  insert_row-HasRecent :
      (row : AlertRow) (db : Db) (r : AlertRow)
      → row.pc_agent_id ≡ agent.id
      → row.alert_type ≡ alert_type
      → row.triggered_at ≡ at
      → find (PcAgents.has_id agent.id) db.pc_agents ≡ some agent
      → (Alerts.insert_row row db).0 ≡ ok r
      → HasRecent (Alerts.insert_row row db).1
  unfolding Alerts.insert_row
  insert_row-HasRecent row db r of_agent of_type now known h =
      elim (Bool-cases (any (Alerts.has_id row.id) db.alerts)) [
        | inl e ↦ absurd (ground arith)
        | inr e ↦ elim (Bool-cases (any (PcAgents.has_id row.pc_agent_id) db.pc_agents)) [
          | inr f ↦ absurd (ground arith)
          | inl f ↦
              rw (e, f)
                (
                  known,
                  newest-cons triggered_at _ (
                      select-join-append _ db.pc_agents db.alerts row agent (rw of_agent known) (
                        rw (of_agent, of_type, now, text_eq_refl agent.id, text_eq_refl alert_type)
                          (ground arith))),
                )
        ]
      ]

  abbrev the_alert : Alert
  the_alert = new_alert agent alert_type message at

  save-HasRecent :
      (w : World) (saved : Alert)
      → find (PcAgents.has_id agent.id) w.pc_agents ≡ some agent
      → (Alerts.save env the_alert w).0 ≡ ok saved
      → HasRecent (Alerts.save env the_alert w).1.db
  unfolding Alerts.save statement
  save-HasRecent w saved known h = elim (Bool-cases (env.db_fails w.steps)) [
    | inl e ↦ absurd (ground arith)
    | inr e ↦
        rw (e, scanned_db)
          (inserted (Alerts.insert_row (row_of env w.steps the_alert) w.db) refl (rw e at h))
  ]
    where
      inserted :
          (r : Result AlertRow × Db)
          → Alerts.insert_row (row_of env w.steps the_alert) w.db ≡ r
          → (Alerts.scanned the_alert r).0 ≡ ok saved
          → HasRecent (Alerts.insert_row (row_of env w.steps the_alert) w.db).1
      inserted (ok row, db) e' k =
          insert_row-HasRecent (row_of env w.steps the_alert) w.db row refl refl refl known
            (rw e' refl)
      inserted (err x, db) e' k = cc

  continue-HasRecent :
      (r : Result Alert × World) (created : Created)
      → ((saved : Alert) → r.0 ≡ ok saved → HasRecent r.1.db)
      → (continue (λ alert. Delivery.deliver env notifications agent.user_id alert) r).0
        ≡ ok created
      → HasRecent
          (continue (λ alert. Delivery.deliver env notifications agent.user_id alert) r).1.db
  continue-HasRecent (ok alert, w) created stored h =
      (deliver-Keeps {P = HasRecent} env (λ rows db k. k) notifications agent.user_id alert).at w
        (stored alert refl)
  continue-HasRecent (err e, w) created stored h = cc

  unless_recent-HasRecent :
      (o : Option Joined) (w : World) (created : Created)
      → find (PcAgents.has_id agent.id) w.pc_agents ≡ some agent
      → recent_in w.db ≡ o
      → (unless_recent env notifications agent alert_type message at
          (Option.map Alerts.scan_alert o)
          w).0
        ≡ ok created
      → HasRecent
          (unless_recent env notifications agent alert_type message at
            (Option.map Alerts.scan_alert o)
            w).1.db
  unfolding unless_recent
  unless_recent-HasRecent (some j) w created known e h = (known, rw e (λ k. cc k))
  unless_recent-HasRecent none w created known e h =
      continue-HasRecent (Alerts.save env the_alert w) created
        (λ saved ok_saved. save-HasRecent w saved known ok_saved) h

  -- After a success.
  pub record_alert-HasRecent :
      (w : World) (created : Created)
      → find (PcAgents.has_id agent.id) w.pc_agents ≡ some agent
      → (record_alert env notifications agent alert_type message at w).0 ≡ ok created
      → HasRecent (record_alert env notifications agent alert_type message at w).1.db
  unfolding record_alert Alerts.find_recent_by_agent_and_type query statement
  record_alert-HasRecent w created known h = elim (Bool-cases (env.db_fails w.steps)) [
    | inl e ↦ absurd (ground arith)
    | inr e ↦ rw e (
        unless_recent-HasRecent (recent_in w.db) (record w { steps = w.steps + 1 }) created known
          refl (rw e at h))
  ]

  idle_unless :
      (o : Option Joined) (w : World)
      → o ≢ none
      → (unless_recent env notifications agent alert_type message at
          (Option.map Alerts.scan_alert o)
          w).1.db
        ≡ w.db
  unfolding unless_recent
  idle_unless none w h = absurd (h refl)
  idle_unless (some j) w h = refl

  -- The next time.
  pub record_alert_idle :
      (w : World)
      → HasRecent w.db
      → (record_alert env notifications agent alert_type message at w).1.db ≡ w.db
  unfolding record_alert Alerts.find_recent_by_agent_and_type query statement
  record_alert_idle w h = elim (Bool-cases (env.db_fails w.steps)) [
    | inl e ↦ rw e refl
    | inr e ↦ rw e (idle_unless (recent_in w.db) (record w { steps = w.steps + 1 }) h.1)
  ]
