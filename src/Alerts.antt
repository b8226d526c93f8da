-- ===== src/Alerts.antt =====
-- internal/usecase/alert_usecase.go: AlertUseCase.
pub mod Texts
pub mod Delivery
pub mod Keeps
pub mod Invariants
pub mod Cleanup
pub mod Recent
pub mod Duplicates
pub mod Spacing
use datn_backend.Prelude.{
  ℕ, ◌+◌, ◌-◌, ◌*◌, Bool, true, false, not, ◌||◌, Option, none, some, List, [], ◌∷◌,
}
use datn_backend.Text.{Text, trim_space, is_empty}
use datn_backend.Domain.{Time, second}
use datn_backend.Domain.Alerts.{Alert}
use datn_backend.Domain.Pairing.{PcAgent}
use datn_backend.Errors.{Error, usecase, UsecaseError}
use datn_backend.World.{Env}
use datn_backend.Action.{Action, pure, guard, translate, now, ◌>>=◌, ◌>>◌}
use datn_backend.Notification.{Sender, Joined}
use datn_backend.Repo.Alerts
use datn_backend.Repo.PcAgents
use datn_backend.Pairing.Agents.{or_pc_agent_not_found}
use datn_backend.Alerts.Texts.{normalize_alert_type, alert_message}
use datn_backend.Alerts.Delivery.{Created, without_failure, deliver}

abbrev pub duplicate_alert_window : Time
duplicate_alert_window = 5 * second

pub record CreateAlertFromAgentInput : Type 0 where
  pub pc_agent_id : Text
  pub alert_type : Text
  pub message : Text
  -- The zero time.Time is none.
  pub triggered_at : Option Time

-- The domain.Alert that is saved.
abbrev pub new_alert : PcAgent → Text → Text → Time → Alert
new_alert agent alert_type message triggered_at = record {
  id = [];
  agent_id = agent.id;
  agent_name = [];
  user_id = agent.user_id;
  type = alert_type;
  message = alert_message alert_type message;
  created_at = some triggered_at;
}

module _ (env : Env) (notifications : Option Sender) where
  -- if triggeredAt.IsZero() { triggeredAt = time.Now().UTC() }
  unfoldable pub instant : Option Time → Action Time
  unfolding now
  instant none = now env
  instant (some triggered_at) = pure triggered_at

  -- What follows the search for a recent alert.
  unfoldable pub unless_recent : PcAgent → Text → Text → Time → Option Alert → Action Created
  unfolding Alerts.save deliver
  unless_recent agent alert_type message triggered_at (some recent) = pure (without_failure recent)
  unless_recent agent alert_type message triggered_at none = do
    alert ← Alerts.save env (new_alert agent alert_type message triggered_at)
    deliver env notifications agent.user_id alert

  unfoldable pub record_alert : PcAgent → Text → Text → Time → Action Created
  unfolding Alerts.find_recent_by_agent_and_type
  record_alert agent alert_type message triggered_at =
      Alerts.find_recent_by_agent_and_type env agent.id alert_type
        (triggered_at - duplicate_alert_window)
      >>= unless_recent agent alert_type message triggered_at

  -- What follows the search for the agent.
  unfoldable pub alert_of_agent : Text → CreateAlertFromAgentInput → PcAgent → Action Created
  unfolding instant record_alert
  alert_of_agent alert_type input agent = do
    guard (not (is_empty (trim_space agent.user_id))) (usecase UsecaseError.pc_agent_not_found)
    triggered_at ← instant input.triggered_at
    record_alert agent alert_type input.message triggered_at

  unfoldable pub create_alert_from_agent : CreateAlertFromAgentInput → Action Created
  unfolding normalize_alert_type PcAgents.find_by_id alert_of_agent
  create_alert_from_agent input = do
    let pc_agent_id = trim_space input.pc_agent_id
    let alert_type = normalize_alert_type env input.alert_type
    guard (not (is_empty pc_agent_id || is_empty alert_type)) (usecase UsecaseError.invalid_input)
    agent ← translate or_pc_agent_not_found (PcAgents.find_by_id env pc_agent_id)
    alert_of_agent alert_type input agent

module _ (env : Env) where
  unfoldable pub list_alerts : Text → Action (List Alert)
  unfolding Alerts.find_by_user_id
  list_alerts user_input = do
    let user_id = trim_space user_input
    guard (not (is_empty user_id)) (usecase UsecaseError.invalid_input)
    Alerts.find_by_user_id env user_id
