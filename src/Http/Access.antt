-- ===== src/Http/Access.antt =====
-- The routes behind a token of a user.
use datn_backend.Prelude.{◌≡◌, ◌≢◌, refl, inl, inr, some, Option-cases}
use datn_backend.Text.{Text}
use datn_backend.Domain.Claims.{AccessClaims, access, register}
use datn_backend.Errors.{Result, ok, err}
use datn_backend.World.{World, Env}
use datn_backend.Token.{Service, verify_token, verify_access_token, verify_register_token}
use datn_backend.Auth.Setup.{AuthUseCase}
use datn_backend.Http.Json.{Codec}
use datn_backend.Http.Replies.{Request, Reply, Handler}
use datn_backend.Http.Middleware.{
  require_auth, require_register_auth, on_claims, bearer_token, with_user_id, with_register_phone,
}
use datn_backend.Http.AuthHandler
use datn_backend.Http.PcAgentHandler
use datn_backend.Http.MobileDeviceHandler
use datn_backend.Http.AlertHandler
use datn_backend.Http.Router.{Route, serve}

-- The token that a route asks for.
pub data Needs : Type 0 where
  nothing user_token register_token : Needs

abbrev pub needs : Route → Needs
needs Route.health = nothing
needs Route.request_register_otp = nothing
needs Route.verify_register_otp = nothing
needs Route.complete_register = register_token
needs Route.login = nothing
needs Route.refresh = nothing
needs Route.logout = nothing
needs Route.logout_all = user_token
needs Route.link_email = user_token
needs Route.start_pairing = nothing
needs Route.get_pairing_status = nothing
needs Route.verify = nothing
needs Route.update_own_protection = nothing
needs Route.confirm_pairing = user_token
needs Route.list_pc_agents = user_token
needs Route.delete_pc_agent = user_token
needs Route.update_protection = user_token
needs Route.register_mobile_device = user_token
needs Route.list_alerts = user_token

-- What `verify` accepts of the request.
abbrev pub Accepted : (env : Env) (s : Service) (token_type : Text) → Request → World → Type 0
Accepted env s token_type request w =
    (raw : Text) × (c : AccessClaims) × (bearer_token request ≡ some raw)
    × ((verify_token env s raw token_type w).0 ≡ ok c)

abbrev pub Permitted : (env : Env) (s : Service) → Needs → Request → World → Type 0
Permitted env s nothing request w = Unit
Permitted env s user_token request w = Accepted env s access request w
Permitted env s register_token request w = Accepted env s register request w

verify_token_db :
    (env : Env) (s : Service) (raw token_type : Text) (w : World)
    → (verify_token env s raw token_type w).1.db ≡ w.db
unfolding verify_token
verify_token_db env s raw token_type w = refl

-- A reply of status 401 that leaves the tables.
abbrev pub IsRefusal : World → Reply × World → Type 0
IsRefusal w r = (r.0.status ≡ 401) × (r.1.db ≡ w.db)

on_claims-IsRefusal :
    (add : AccessClaims → Request → Request) (next : Handler) (request : Request) (w : World)
    (r : Result AccessClaims × World)
    → ((c : AccessClaims) → r.0 ≢ ok c)
    → r.1.db ≡ w.db
    → IsRefusal w (on_claims add next request r)
on_claims-IsRefusal add next request w (ok c, v) bars e = absurd (bars c refl)
on_claims-IsRefusal add next request w (err x, v) bars e = (refl, e)

require_auth-IsRefusal :
    (env : Env) (s : Service) (next : Handler) (request : Request) (w : World)
    → ¬ Accepted env s access request w
    → IsRefusal w (require_auth env s next request w)
unfolding require_auth verify_access_token
require_auth-IsRefusal env s next request w bars = elim (Option-cases (bearer_token request)) [
  | inl e ↦ rw e (refl, refl)
  | inr (raw, e) ↦ rw e (
      on_claims-IsRefusal with_user_id next request w (verify_token env s raw access w)
        (λ c accepted. bars (raw, c, e, accepted)) (verify_token_db env s raw access w))
]

require_register_auth-IsRefusal :
    (env : Env) (s : Service) (next : Handler) (request : Request) (w : World)
    → ¬ Accepted env s register request w
    → IsRefusal w (require_register_auth env s next request w)
unfolding require_register_auth verify_register_token
require_register_auth-IsRefusal env s next request w bars =
    elim (Option-cases (bearer_token request)) [
      | inl e ↦ rw e (refl, refl)
      | inr (raw, e) ↦ rw e (
          on_claims-IsRefusal with_register_phone next request w (verify_token env s raw register w)
            (λ c accepted. bars (raw, c, e, accepted)) (verify_token_db env s raw register w))
    ]

-- A route that asks for a token answers with status 401 and leaves every table as it is, unless the
-- request carries a bearer token that the token service accepts at that moment as one of the type
-- that the route asks for.
pub serve-IsRefusal :
    (env : Env) (codec : Codec) (auth : AuthUseCase) (route : Route) (request : Request) (w : World)
    → ¬ Permitted env auth.tokens (needs route) request w
    → IsRefusal w (serve env codec auth route request w)
unfolding serve
serve-IsRefusal env codec auth Route.health request w bars = absurd (bars tt)
serve-IsRefusal env codec auth Route.request_register_otp request w bars = absurd (bars tt)
serve-IsRefusal env codec auth Route.verify_register_otp request w bars = absurd (bars tt)
serve-IsRefusal env codec auth Route.complete_register request w bars =
    require_register_auth-IsRefusal env auth.tokens
      (AuthHandler.handle_complete_register env codec auth) request w bars
serve-IsRefusal env codec auth Route.login request w bars = absurd (bars tt)
serve-IsRefusal env codec auth Route.refresh request w bars = absurd (bars tt)
serve-IsRefusal env codec auth Route.logout request w bars = absurd (bars tt)
serve-IsRefusal env codec auth Route.logout_all request w bars =
    require_auth-IsRefusal env auth.tokens (AuthHandler.handle_logout_all env codec auth) request w
      bars
serve-IsRefusal env codec auth Route.link_email request w bars =
    require_auth-IsRefusal env auth.tokens (AuthHandler.handle_link_email env codec auth) request w
      bars
serve-IsRefusal env codec auth Route.start_pairing request w bars = absurd (bars tt)
serve-IsRefusal env codec auth Route.get_pairing_status request w bars = absurd (bars tt)
serve-IsRefusal env codec auth Route.verify request w bars = absurd (bars tt)
serve-IsRefusal env codec auth Route.update_own_protection request w bars = absurd (bars tt)
serve-IsRefusal env codec auth Route.confirm_pairing request w bars =
    require_auth-IsRefusal env auth.tokens (PcAgentHandler.handle_confirm_pairing env codec) request
      w bars
serve-IsRefusal env codec auth Route.list_pc_agents request w bars =
    require_auth-IsRefusal env auth.tokens (PcAgentHandler.handle_list env codec) request w bars
serve-IsRefusal env codec auth Route.delete_pc_agent request w bars =
    require_auth-IsRefusal env auth.tokens (PcAgentHandler.handle_delete env codec) request w bars
serve-IsRefusal env codec auth Route.update_protection request w bars =
    require_auth-IsRefusal env auth.tokens (PcAgentHandler.handle_update_protection env codec)
      request w bars
serve-IsRefusal env codec auth Route.register_mobile_device request w bars =
    require_auth-IsRefusal env auth.tokens (MobileDeviceHandler.handle_register env codec) request w
      bars
serve-IsRefusal env codec auth Route.list_alerts request w bars =
    require_auth-IsRefusal env auth.tokens (AlertHandler.handle_list env codec) request w bars
