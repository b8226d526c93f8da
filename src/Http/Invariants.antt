-- ===== src/Http/Invariants.antt =====
-- An invariant of the tables that every use case keeps, every route keeps.
use datn_backend.Text.{Text}
use datn_backend.World.{Db, Env}
use datn_backend.Action.Keeps.{Keeps, keeps_rules}
use datn_backend.Auth.Setup.{AuthUseCase}
use datn_backend.Auth.Requests.Invariants as AuthInvariants
use datn_backend.Auth.Requests.Statements as AuthStatements
use datn_backend.Pairing.Requests
use datn_backend.Pairing.Requests.Invariants as PairingInvariants
use datn_backend.Pairing.Agents
use datn_backend.Domain.Pairing.{PairingSession}
use datn_backend.Pairing.Devices.{register_mobile_device}
use datn_backend.Alerts.{list_alerts}
use datn_backend.Repo.PcAgents
use datn_backend.Repo.Alerts
use datn_backend.Http.Json.{Codec}
use datn_backend.Http.Replies.{Request}
use datn_backend.Http.AuthHandler
use datn_backend.Http.PcAgentHandler
use datn_backend.Http.MobileDeviceHandler
use datn_backend.Http.AlertHandler
use datn_backend.Http.Router.{Route, serve}
use datn_backend.Http.Leaves.{
  Leaves, require_auth-Leaves, require_register_auth-Leaves, leaves_rules,
}

module _ {P : Db → Type 0} (env : Env) (codec : Codec) (auth : AuthUseCase)
    (on_auth : AuthStatements.Rules P) (on_pairing : PairingInvariants.Rules P env)
    (on_deletion : (user_id id : Text) → Keeps P (Agents.delete_pc_agent env user_id id))
    (on_device : (user_id fcm_token platform : Text)
      → Keeps P (register_mobile_device env user_id fcm_token platform)) where
  abbrev Any : Requests.Request → Type 0
  Any r = Unit

  request_register_otp-Leaves :
      (q : Request) → Leaves P (AuthHandler.handle_request_register_otp env codec auth q)
  unfolding AuthHandler.handle_request_register_otp
  request_register_otp-Leaves q =
      search (leaves_rules, AuthInvariants.request_register_otp-Keeps env on_auth)

  verify_register_otp-Leaves :
      (q : Request) → Leaves P (AuthHandler.handle_verify_register_otp env codec auth q)
  unfolding AuthHandler.handle_verify_register_otp
  verify_register_otp-Leaves q =
      search (leaves_rules, AuthInvariants.verify_register_otp-Keeps env on_auth)

  complete_register-Leaves :
      (q : Request) → Leaves P (AuthHandler.handle_complete_register env codec auth q)
  unfolding AuthHandler.handle_complete_register
  complete_register-Leaves q =
      search (leaves_rules, AuthInvariants.complete_register-Keeps env on_auth) depth 20

  login-Leaves : (q : Request) → Leaves P (AuthHandler.handle_login env codec auth q)
  unfolding AuthHandler.handle_login
  login-Leaves q = search (leaves_rules, AuthInvariants.login-Keeps env on_auth) depth 20

  refresh-Leaves : (q : Request) → Leaves P (AuthHandler.handle_refresh env codec auth q)
  unfolding AuthHandler.handle_refresh
  refresh-Leaves q = search (leaves_rules, AuthInvariants.refresh-Keeps env on_auth) depth 20

  logout-Leaves : (q : Request) → Leaves P (AuthHandler.handle_logout env codec auth q)
  unfolding AuthHandler.handle_logout
  logout-Leaves q = search (leaves_rules, AuthInvariants.logout-Keeps env on_auth) depth 20

  logout_all-Leaves : (q : Request) → Leaves P (AuthHandler.handle_logout_all env codec auth q)
  unfolding AuthHandler.handle_logout_all
  logout_all-Leaves q = search (leaves_rules, AuthInvariants.logout_all-Keeps env on_auth) depth 20

  link_email-Leaves : (q : Request) → Leaves P (AuthHandler.handle_link_email env codec auth q)
  unfolding AuthHandler.handle_link_email
  link_email-Leaves q = search (leaves_rules, AuthInvariants.link_email-Keeps env on_auth) depth 20

  expires_in-Keeps :
      (session : PairingSession) → Keeps P (PcAgentHandler.expires_in env codec session)
  unfolding PcAgentHandler.expires_in
  expires_in-Keeps session = search keeps_rules depth 20

  start_pairing-Leaves : (q : Request) → Leaves P (PcAgentHandler.handle_start_pairing env codec q)
  unfolding PcAgentHandler.handle_start_pairing
  start_pairing-Leaves q =
      search
        (
          leaves_rules,
          keeps_rules,
          expires_in-Keeps,
          PairingInvariants.start_pairing-Keeps env on_pairing Any (λ u i t. on_deletion u i),
        )
        depth 20

  confirm_pairing-Leaves :
      (q : Request) → Leaves P (PcAgentHandler.handle_confirm_pairing env codec q)
  unfolding PcAgentHandler.handle_confirm_pairing
  confirm_pairing-Leaves q =
      search
        (
          leaves_rules,
          PairingInvariants.confirm_pairing-Keeps env on_pairing Any (λ u i t. on_deletion u i),
        )
        depth 20

  get_pairing_status-Leaves :
      (q : Request) → Leaves P (PcAgentHandler.handle_get_pairing_status env codec q)
  unfolding PcAgentHandler.handle_get_pairing_status
  get_pairing_status-Leaves q =
      search
        (
          leaves_rules,
          PairingInvariants.get_pairing_status-Keeps env on_pairing Any (λ u i t. on_deletion u i),
        )
        depth 20

  verify-Leaves : (q : Request) → Leaves P (PcAgentHandler.handle_verify env codec q)
  unfolding PcAgentHandler.handle_verify
  verify-Leaves q =
      search
        (
          leaves_rules,
          PairingInvariants.verify_pc_agent-Keeps env on_pairing Any (λ u i t. on_deletion u i),
        )
        depth 20

  list_pc_agents-Leaves : (q : Request) → Leaves P (PcAgentHandler.handle_list env codec q)
  unfolding PcAgentHandler.handle_list Agents.list_pc_agents PcAgents.find_by_user_id
  list_pc_agents-Leaves q = search (leaves_rules, keeps_rules) depth 20

  delete_pc_agent-Leaves : (q : Request) → Leaves P (PcAgentHandler.handle_delete env codec q)
  unfolding PcAgentHandler.handle_delete
  delete_pc_agent-Leaves q = search (leaves_rules, on_deletion) depth 20

  update_protection-Leaves :
      (q : Request) → Leaves P (PcAgentHandler.handle_update_protection env codec q)
  unfolding PcAgentHandler.handle_update_protection
  update_protection-Leaves q =
      search
        (
          leaves_rules,
          PairingInvariants.protection-Keeps env on_pairing Any (λ u i t. on_deletion u i),
        )
        depth 20

  update_own_protection-Leaves :
      (q : Request) → Leaves P (PcAgentHandler.handle_update_own_protection env codec q)
  unfolding PcAgentHandler.handle_update_own_protection
  update_own_protection-Leaves q =
      search
        (
          leaves_rules,
          PairingInvariants.own_protection-Keeps env on_pairing Any (λ u i t. on_deletion u i),
        )
        depth 20

  register_mobile_device-Leaves :
      (q : Request) → Leaves P (MobileDeviceHandler.handle_register env codec q)
  unfolding MobileDeviceHandler.handle_register
  register_mobile_device-Leaves q = search (leaves_rules, on_device) depth 20

  list_alerts-Leaves : (q : Request) → Leaves P (AlertHandler.handle_list env codec q)
  unfolding AlertHandler.handle_list list_alerts Alerts.find_by_user_id
  list_alerts-Leaves q = search (leaves_rules, keeps_rules) depth 20

  pub serve-Leaves : (route : Route) (q : Request) → Leaves P (serve env codec auth route q)
  unfolding serve
  serve-Leaves Route.health q = record { at = λ w h. h }
  serve-Leaves Route.request_register_otp q = request_register_otp-Leaves q
  serve-Leaves Route.verify_register_otp q = verify_register_otp-Leaves q
  serve-Leaves Route.complete_register q =
      require_register_auth-Leaves env auth.tokens _ q complete_register-Leaves
  serve-Leaves Route.login q = login-Leaves q
  serve-Leaves Route.refresh q = refresh-Leaves q
  serve-Leaves Route.logout q = logout-Leaves q
  serve-Leaves Route.start_pairing q = start_pairing-Leaves q
  serve-Leaves Route.get_pairing_status q = get_pairing_status-Leaves q
  serve-Leaves Route.verify q = verify-Leaves q
  serve-Leaves Route.update_own_protection q = update_own_protection-Leaves q
  serve-Leaves Route.logout_all q = require_auth-Leaves env auth.tokens _ q logout_all-Leaves
  serve-Leaves Route.link_email q = require_auth-Leaves env auth.tokens _ q link_email-Leaves
  serve-Leaves Route.confirm_pairing q =
      require_auth-Leaves env auth.tokens _ q confirm_pairing-Leaves
  serve-Leaves Route.list_pc_agents q =
      require_auth-Leaves env auth.tokens _ q list_pc_agents-Leaves
  serve-Leaves Route.delete_pc_agent q =
      require_auth-Leaves env auth.tokens _ q delete_pc_agent-Leaves
  serve-Leaves Route.update_protection q =
      require_auth-Leaves env auth.tokens _ q update_protection-Leaves
  serve-Leaves Route.register_mobile_device q =
      require_auth-Leaves env auth.tokens _ q register_mobile_device-Leaves
  serve-Leaves Route.list_alerts q = require_auth-Leaves env auth.tokens _ q list_alerts-Leaves
