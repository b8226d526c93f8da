-- ===== src/Http/Router.antt =====
-- router/router.go: the patterns that the ServeMux knows, and what stands behind each of them.
use datn_backend.Text.{Text, utf8}
use datn_backend.World.{Env}
use datn_backend.Auth.Setup.{AuthUseCase}
use datn_backend.Http.Json.{Codec, one_field}
use datn_backend.Http.Replies.{Handler, write_json}
use datn_backend.Http.Middleware.{require_auth, require_register_auth}
use datn_backend.Http.AuthHandler
use datn_backend.Http.PcAgentHandler
use datn_backend.Http.MobileDeviceHandler
use datn_backend.Http.AlertHandler

pub data Route : Type 0 where
  health request_register_otp verify_register_otp complete_register login refresh logout : Route
  logout_all link_email start_pairing get_pairing_status verify update_own_protection : Route
  confirm_pairing list_pc_agents delete_pc_agent update_protection register_mobile_device : Route
  list_alerts : Route

-- The method and the pattern of a route.
unfoldable pub pattern_of : Route → Text
pattern_of health = utf8 "GET /health"
pattern_of request_register_otp = utf8 "POST /api/auth/register/request-otp"
pattern_of verify_register_otp = utf8 "POST /api/auth/register/verify-otp"
pattern_of complete_register = utf8 "POST /api/auth/register/complete"
pattern_of login = utf8 "POST /api/auth/login"
pattern_of refresh = utf8 "POST /api/auth/refresh"
pattern_of logout = utf8 "POST /api/auth/logout"
pattern_of logout_all = utf8 "POST /api/auth/logout-all"
pattern_of link_email = utf8 "POST /api/auth/link-email"
pattern_of start_pairing = utf8 "POST /api/pc-agents/pairing/start"
pattern_of get_pairing_status = utf8 "GET /api/pc-agents/pairing/status"
pattern_of verify = utf8 "POST /api/pc-agents/verify"
pattern_of update_own_protection = utf8 "PATCH /api/pc-agents/me/protection"
pattern_of confirm_pairing = utf8 "POST /api/pc-agents/pairing/confirm"
pattern_of list_pc_agents = utf8 "GET /api/pc-agents"
pattern_of delete_pc_agent = utf8 "DELETE /api/pc-agents/{pc_agent_id}"
pattern_of update_protection = utf8 "PATCH /api/pc-agents/{pc_agent_id}/protection"
pattern_of register_mobile_device = utf8 "POST /api/mobile-devices"
pattern_of list_alerts = utf8 "GET /api/alerts"

-- The body is written as the bytes {"status":"ok"}.
abbrev pub handle_health : Handler
handle_health request w = (write_json 200 (one_field (utf8 "status") (utf8 "ok")), w)

module _ (env : Env) (codec : Codec) (auth : AuthUseCase) where
  abbrev pub protected : Handler → Handler
  protected next = require_auth env auth.tokens next

  -- A request has no value in its context before the middleware.
  unfoldable pub serve : Route → Handler
  unfolding require_auth require_register_auth
  serve health = handle_health
  serve request_register_otp = AuthHandler.handle_request_register_otp env codec auth
  serve verify_register_otp = AuthHandler.handle_verify_register_otp env codec auth
  serve complete_register =
      require_register_auth env auth.tokens (AuthHandler.handle_complete_register env codec auth)
  serve login = AuthHandler.handle_login env codec auth
  serve refresh = AuthHandler.handle_refresh env codec auth
  serve logout = AuthHandler.handle_logout env codec auth
  serve logout_all = protected (AuthHandler.handle_logout_all env codec auth)
  serve link_email = protected (AuthHandler.handle_link_email env codec auth)
  serve start_pairing = PcAgentHandler.handle_start_pairing env codec
  serve get_pairing_status = PcAgentHandler.handle_get_pairing_status env codec
  serve verify = PcAgentHandler.handle_verify env codec
  serve update_own_protection = PcAgentHandler.handle_update_own_protection env codec
  serve confirm_pairing = protected (PcAgentHandler.handle_confirm_pairing env codec)
  serve list_pc_agents = protected (PcAgentHandler.handle_list env codec)
  serve delete_pc_agent = protected (PcAgentHandler.handle_delete env codec)
  serve update_protection = protected (PcAgentHandler.handle_update_protection env codec)
  serve register_mobile_device = protected (MobileDeviceHandler.handle_register env codec)
  serve list_alerts = protected (AlertHandler.handle_list env codec)
