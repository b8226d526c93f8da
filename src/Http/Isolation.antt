-- ===== src/Http/Isolation.antt =====
-- A request with the token of a user leaves the agents of the other users as they are.
use datn_backend.Prelude.{◌+◌, ◌≡◌, refl, some, [], ◌∷◌}
use datn_backend.Text.{Text, trim_space}
use datn_backend.Domain.Claims.{AccessClaims, access}
use datn_backend.Domain.Pairing.{PcAgent}
use datn_backend.Errors.{ok}
use datn_backend.World.{World, Db, Env}
use datn_backend.Action.Keeps.{keeps_rules}
use datn_backend.Prelude.{List}
use datn_backend.Token.{verify_token}
use datn_backend.Auth.Setup.{AuthUseCase}
use datn_backend.Auth.Requests.Invariants as AuthInvariants
use datn_backend.Pairing.Agents.{list_pc_agents}
use datn_backend.Pairing.Ownership
use datn_backend.Pairing.Ownership.{HasOthers, others}
use datn_backend.Repo.PcAgents
use datn_backend.Repo.Alerts
use datn_backend.Alerts.{list_alerts}
use datn_backend.Http.Json.{Codec}
use datn_backend.Http.Replies.{Request, Reply, Handler}
use datn_backend.Http.Middleware.{bearer_token, with_user_id, with_value, user_id_from_context}
use datn_backend.Http.AuthHandler
use datn_backend.Http.PcAgentHandler
use datn_backend.Http.MobileDeviceHandler
use datn_backend.Http.AlertHandler
use datn_backend.Http.Leaves.{Leaves, leaves_rules}
use datn_backend.Http.Sessions.{accepted_auth}
use datn_backend.Http.Access.{needs, user_token}
use datn_backend.Http.Router.{Route, serve}

module _ (env : Env) (codec : Codec) (auth : AuthUseCase) (subject : Text)
    (agents : List PcAgent) where
  abbrev P : Db → Type 0
  P = HasOthers (trim_space subject) agents

  abbrev IsOf : Request → Type 0
  IsOf q = q.user_id ≡ some subject

  -- The handler is given the subject, or refuses an empty one.
  subject-Leaves :
      (missing : Text) (q : Request) (f : Text → World → Reply × World)
      → IsOf q
      → Leaves P (f subject)
      → Leaves P (with_value missing (user_id_from_context q) f)
  unfolding user_id_from_context
  subject-Leaves missing q f e k = rw e (present_subject subject k)
    where
      present_subject :
          (s : Text)
          → Leaves P (f s)
          → Leaves P (with_value missing (user_id_from_context (record q { user_id = some s })) f)
      present_subject [] k' = record { at = λ w h. h }
      present_subject (b ∷ s) k' = record { at = k'.at }

  logout_all-Leaves :
      (q : Request) → IsOf q → Leaves P (AuthHandler.handle_logout_all env codec auth q)
  unfolding AuthHandler.handle_logout_all
  logout_all-Leaves q e =
      search
        (
          subject-Leaves,
          leaves_rules,
          AuthInvariants.logout_all-Keeps env
              (Ownership.auth_rules env (trim_space subject) agents),
        )
        depth 20

  link_email-Leaves :
      (q : Request) → IsOf q → Leaves P (AuthHandler.handle_link_email env codec auth q)
  unfolding AuthHandler.handle_link_email
  link_email-Leaves q e =
      search
        (
          subject-Leaves,
          leaves_rules,
          AuthInvariants.link_email-Keeps env
              (Ownership.auth_rules env (trim_space subject) agents),
        )
        depth 20

  confirm_pairing-Leaves :
      (q : Request) → IsOf q → Leaves P (PcAgentHandler.handle_confirm_pairing env codec q)
  unfolding PcAgentHandler.handle_confirm_pairing
  confirm_pairing-Leaves q e =
      search (subject-Leaves, leaves_rules, Ownership.confirm_pairing-Keeps env subject agents)
        depth 20

  list_pc_agents-Leaves : (q : Request) → IsOf q → Leaves P (PcAgentHandler.handle_list env codec q)
  unfolding PcAgentHandler.handle_list list_pc_agents PcAgents.find_by_user_id
  list_pc_agents-Leaves q e = search (subject-Leaves, leaves_rules, keeps_rules) depth 20

  delete_pc_agent-Leaves :
      (q : Request) → IsOf q → Leaves P (PcAgentHandler.handle_delete env codec q)
  unfolding PcAgentHandler.handle_delete
  delete_pc_agent-Leaves q e =
      search (subject-Leaves, leaves_rules, Ownership.delete_pc_agent-Keeps env subject agents)
        depth 20

  update_protection-Leaves :
      (q : Request) → IsOf q → Leaves P (PcAgentHandler.handle_update_protection env codec q)
  unfolding PcAgentHandler.handle_update_protection
  update_protection-Leaves q e =
      search (subject-Leaves, leaves_rules, Ownership.protection-Keeps env subject agents) depth 20

  register_mobile_device-Leaves :
      (q : Request) → IsOf q → Leaves P (MobileDeviceHandler.handle_register env codec q)
  unfolding MobileDeviceHandler.handle_register
  register_mobile_device-Leaves q e =
      search
        (
          subject-Leaves,
          leaves_rules,
          Ownership.register_mobile_device-Keeps env (trim_space subject) agents,
        )
        depth 20

  list_alerts-Leaves : (q : Request) → IsOf q → Leaves P (AlertHandler.handle_list env codec q)
  unfolding AlertHandler.handle_list list_alerts Alerts.find_by_user_id
  list_alerts-Leaves q e = search (subject-Leaves, leaves_rules, keeps_rules) depth 20

-- The handler that a route of a user runs.
abbrev handler_of : Env → Codec → AuthUseCase → Route → Handler
handler_of env codec auth Route.logout_all = AuthHandler.handle_logout_all env codec auth
handler_of env codec auth Route.link_email = AuthHandler.handle_link_email env codec auth
handler_of env codec auth Route.confirm_pairing = PcAgentHandler.handle_confirm_pairing env codec
handler_of env codec auth Route.list_pc_agents = PcAgentHandler.handle_list env codec
handler_of env codec auth Route.delete_pc_agent = PcAgentHandler.handle_delete env codec
handler_of env codec auth Route.update_protection =
    PcAgentHandler.handle_update_protection env codec
handler_of env codec auth Route.register_mobile_device =
    MobileDeviceHandler.handle_register env codec
handler_of env codec auth Route.list_alerts = AlertHandler.handle_list env codec
handler_of env codec auth route = serve env codec auth route

handler-Leaves :
    (env : Env) (codec : Codec) (auth : AuthUseCase) (subject : Text) (agents : List PcAgent)
    (route : Route) (q : Request)
    → needs route ≡ user_token
    → q.user_id ≡ some subject
    → Leaves (HasOthers (trim_space subject) agents) (handler_of env codec auth route q)
handler-Leaves env codec auth subject agents Route.logout_all q n e =
    logout_all-Leaves env codec auth subject agents q e
handler-Leaves env codec auth subject agents Route.link_email q n e =
    link_email-Leaves env codec auth subject agents q e
handler-Leaves env codec auth subject agents Route.confirm_pairing q n e =
    confirm_pairing-Leaves env codec auth subject agents q e
handler-Leaves env codec auth subject agents Route.list_pc_agents q n e =
    list_pc_agents-Leaves env codec auth subject agents q e
handler-Leaves env codec auth subject agents Route.delete_pc_agent q n e =
    delete_pc_agent-Leaves env codec auth subject agents q e
handler-Leaves env codec auth subject agents Route.update_protection q n e =
    update_protection-Leaves env codec auth subject agents q e
handler-Leaves env codec auth subject agents Route.register_mobile_device q n e =
    register_mobile_device-Leaves env codec auth subject agents q e
handler-Leaves env codec auth subject agents Route.list_alerts q n e =
    list_alerts-Leaves env codec auth subject agents q e
handler-Leaves env codec auth subject agents Route.health q n e = cc
handler-Leaves env codec auth subject agents Route.request_register_otp q n e = cc
handler-Leaves env codec auth subject agents Route.verify_register_otp q n e = cc
handler-Leaves env codec auth subject agents Route.complete_register q n e = cc
handler-Leaves env codec auth subject agents Route.login q n e = cc
handler-Leaves env codec auth subject agents Route.refresh q n e = cc
handler-Leaves env codec auth subject agents Route.logout q n e = cc
handler-Leaves env codec auth subject agents Route.start_pairing q n e = cc
handler-Leaves env codec auth subject agents Route.get_pairing_status q n e = cc
handler-Leaves env codec auth subject agents Route.verify q n e = cc
handler-Leaves env codec auth subject agents Route.update_own_protection q n e = cc

serve-handler :
    (env : Env) (codec : Codec) (auth : AuthUseCase) (route : Route) (request : Request) (w : World)
    (raw : Text) (c : AccessClaims)
    → needs route ≡ user_token
    → bearer_token request ≡ some raw
    → (verify_token env auth.tokens raw access w).0 ≡ ok c
    → serve env codec auth route request w
      ≡ handler_of env codec auth route (with_user_id c request) (record w { steps = w.steps + 1 })
unfolding serve
serve-handler env codec auth Route.logout_all request w raw c n bearer accepted =
    accepted_auth env codec auth (AuthHandler.handle_logout_all env codec auth) request raw c w
      bearer accepted
serve-handler env codec auth Route.link_email request w raw c n bearer accepted =
    accepted_auth env codec auth (AuthHandler.handle_link_email env codec auth) request raw c w
      bearer accepted
serve-handler env codec auth Route.confirm_pairing request w raw c n bearer accepted =
    accepted_auth env codec auth (PcAgentHandler.handle_confirm_pairing env codec) request raw c w
      bearer accepted
serve-handler env codec auth Route.list_pc_agents request w raw c n bearer accepted =
    accepted_auth env codec auth (PcAgentHandler.handle_list env codec) request raw c w bearer
      accepted
serve-handler env codec auth Route.delete_pc_agent request w raw c n bearer accepted =
    accepted_auth env codec auth (PcAgentHandler.handle_delete env codec) request raw c w bearer
      accepted
serve-handler env codec auth Route.update_protection request w raw c n bearer accepted =
    accepted_auth env codec auth (PcAgentHandler.handle_update_protection env codec) request raw c w
      bearer accepted
serve-handler env codec auth Route.register_mobile_device request w raw c n bearer accepted =
    accepted_auth env codec auth (MobileDeviceHandler.handle_register env codec) request raw c w
      bearer accepted
serve-handler env codec auth Route.list_alerts request w raw c n bearer accepted =
    accepted_auth env codec auth (AlertHandler.handle_list env codec) request raw c w bearer
      accepted
serve-handler env codec auth Route.health request w raw c n bearer accepted = cc
serve-handler env codec auth Route.request_register_otp request w raw c n bearer accepted = cc
serve-handler env codec auth Route.verify_register_otp request w raw c n bearer accepted = cc
serve-handler env codec auth Route.complete_register request w raw c n bearer accepted = cc
serve-handler env codec auth Route.login request w raw c n bearer accepted = cc
serve-handler env codec auth Route.refresh request w raw c n bearer accepted = cc
serve-handler env codec auth Route.logout request w raw c n bearer accepted = cc
serve-handler env codec auth Route.start_pairing request w raw c n bearer accepted = cc
serve-handler env codec auth Route.get_pairing_status request w raw c n bearer accepted = cc
serve-handler env codec auth Route.verify request w raw c n bearer accepted = cc
serve-handler env codec auth Route.update_own_protection request w raw c n bearer accepted = cc

-- Whatever a request asks of a route of a user, with a token that is accepted as that of a user, it
-- adds, changes and removes no agent of another user, whatever the reply: the rows of the agents of
-- the other users are the same before and after.
pub serve-others :
    (env : Env) (codec : Codec) (auth : AuthUseCase) (route : Route) (request : Request) (w : World)
    (raw : Text) (c : AccessClaims)
    → needs route ≡ user_token
    → bearer_token request ≡ some raw
    → (verify_token env auth.tokens raw access w).0 ≡ ok c
    → others (trim_space c.subject) (serve env codec auth route request w).1.pc_agents
      ≡ others (trim_space c.subject) w.pc_agents
serve-others env codec auth route request w raw c n bearer accepted =
    rw (serve-handler env codec auth route request w raw c n bearer accepted) (
      (handler-Leaves env codec auth c.subject (others (trim_space c.subject) w.pc_agents) route
          (with_user_id c request) n refl).at
        (record w { steps = w.steps + 1 }) refl)
