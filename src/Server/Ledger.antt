-- ===== src/Server/Ledger.antt =====
-- The refresh tokens under every step of the server.
use datn_backend.World.{World}
use datn_backend.Auth.Ledger.{Run, rest, ledger_of, run-Rules}
use datn_backend.Alerts.Keeps.{create_alert_from_agent-Keeps}
use datn_backend.Server.Steps.{Process, Reach}
use datn_backend.Server.Keeps.{Reach-Keeps}

-- The server implements the abstract ledger: whatever HTTP requests to any route and MQTT messages
-- are handled, one after the other and with whatever outcomes, the ledger of the refresh tokens
-- afterwards is reached from that before by appending entries and by revoking entries. No entry is
-- removed, moved, given to another user, prolonged or made valid again.
pub Reach-Run :
    (p : Process) {w v : World}
    → Reach p w v
    → Run (ledger_of w.refresh_tokens) (ledger_of v.refresh_tokens)
Reach-Run p {w = w} r =
    Reach-Keeps p (run-Rules (ledger_of w.refresh_tokens))
      (record {
        agent_insertion = λ row db e h. h;
        agent_update = λ q f db same h. h;
        session_rows = λ rows db h. h;
        device_rows = λ rows db h. h;
        agent_removal = λ id user_id db h. h;
      })
      (create_alert_from_agent-Keeps p.env (λ rows db h. h) (λ row db e h. h) p.notifications) rest
      r
