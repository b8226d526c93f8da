-- ===== src/Server/Invariants.antt =====
-- The alerts of an agent stay apart, whatever the server is asked for.
use datn_backend.World.{World}
use datn_backend.Auth.Requests.Statements as AuthStatements
use datn_backend.Repo.PcAgents.{is_alert_of}
use datn_backend.Alerts.Spacing.{Spaced-delete}
use datn_backend.Alerts.Invariants.{HasSpacedAlerts, create_alert_from_agent-HasSpacedAlerts}
use datn_backend.Server.Steps.{Process, Reach}
use datn_backend.Server.Keeps.{Rows, Reach-Keeps}

spaced_auth : AuthStatements.Rules HasSpacedAlerts
spaced_auth = record {
  user_rows = λ rows db h. h;
  otp_rows = λ rows db h. h;
  token_insertion = λ row db h. h;
  token_revocation = λ p at db h. h;
}

spaced_rows : Rows HasSpacedAlerts
spaced_rows = record {
  agent_insertion = λ row db e h. h;
  agent_update = λ q f db same h. h;
  session_rows = λ rows db h. h;
  device_rows = λ rows db h. h;
  agent_removal = λ id user_id db h. Spaced-delete (is_alert_of id) db.alerts h;
}

-- In every state that HTTP requests to any route and MQTT messages on either topic can reach from
-- tables in which it holds (tables with no alerts, for one), two alerts of one agent and one type
-- are more than five seconds apart, the one that was stored later having the later instant.
-- Requests and messages are handled one after the other.
pub Reach-HasSpacedAlerts :
    (p : Process) {w v : World} → HasSpacedAlerts w.db → Reach p w v → HasSpacedAlerts v.db
Reach-HasSpacedAlerts p h r =
    Reach-Keeps p spaced_auth spaced_rows
      (λ input. record { at = create_alert_from_agent-HasSpacedAlerts p.env p.notifications input })
      h r
