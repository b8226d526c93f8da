-- ===== src/Http/Middleware.antt =====
-- middleware.go.
use datn_backend.Prelude.{Option, none, some, if◌then◌else◌}
use datn_backend.Text.{Text, utf8, cut_prefix, trim_space, is_empty}
use datn_backend.Domain.Claims.{AccessClaims}
use datn_backend.Errors.{Result, ok, err}
use datn_backend.World.{World, Env}
use datn_backend.Token.{Service, verify_access_token, verify_register_token}
use datn_backend.Http.Replies.{Request, Reply, Handler, write_error}

abbrev pub missing_access_token : Reply
missing_access_token = write_error 401 (utf8 "missing_access_token")

abbrev pub invalid_access_token : Reply
invalid_access_token = write_error 401 (utf8 "invalid_access_token")

abbrev pub with_user_id : AccessClaims → Request → Request
with_user_id claims request = record request { user_id = some claims.subject }

abbrev pub with_register_phone : AccessClaims → Request → Request
with_register_phone claims request = record request { register_phone = some claims.subject }

-- `add` puts the subject into the context of the request.
abbrev pub on_claims :
    (AccessClaims → Request → Request)
    → Handler
    → Request
    → Result AccessClaims × World
    → Reply × World
on_claims add next request (ok claims, w) = next (add claims request) w
on_claims add next request (err e, w) = (invalid_access_token, w)

-- The token behind "Bearer ", trimmed and not empty.
abbrev non_empty : Text → Option Text
non_empty raw = if is_empty raw then none else some raw

abbrev trimmed : Option Text → Option Text
trimmed none = none
trimmed (some raw) = non_empty (trim_space raw)

unfoldable pub bearer_token : Request → Option Text
unfolding cut_prefix
bearer_token request = trimmed (cut_prefix (request.header (utf8 "Authorization")) (utf8 "Bearer "))

abbrev on_bearer : Option Text → (Text → World → Reply × World) → World → Reply × World
on_bearer none f w = (missing_access_token, w)
on_bearer (some raw) f w = f raw w

module _ (env : Env) (token_service : Service) where
  unfoldable pub require_auth : Handler → Handler
  unfolding bearer_token verify_access_token
  require_auth next request =
      on_bearer (bearer_token request)
        λ raw w. on_claims with_user_id next request (verify_access_token env token_service raw w)

  unfoldable pub require_register_auth : Handler → Handler
  unfolding bearer_token verify_register_token
  require_register_auth next request = on_bearer (bearer_token request) λ raw w.
      on_claims with_register_phone next request (verify_register_token env token_service raw w)

abbrev present : Option Text → Option Text
present none = none
present (some value) = non_empty value

-- An empty value counts as missing.
unfoldable pub user_id_from_context : Request → Option Text
user_id_from_context request = present request.user_id

unfoldable pub register_phone_from_context : Request → Option Text
register_phone_from_context request = present request.register_phone

-- if !ok { writeError(w, http.StatusUnauthorized, …); return }
abbrev pub with_value : Text → Option Text → (Text → World → Reply × World) → World → Reply × World
with_value missing none f w = (write_error 401 missing, w)
with_value missing (some value) f w = f value w
