-- ===== src/Tests/Http.antt =====
-- HTTP requests at concrete inputs.
use datn_backend.Auth.Inputs.{normalize_phone_number}
use datn_backend.Prelude.{◌*◌, ◌≡◌, refl, false, none, some, [], ◌∷◌, ◌++◌, if◌then◌else◌, arith}
use datn_backend.Prelude.Int.{pos}
use datn_backend.Prelude.Tables.{find, any}
use datn_backend.Text.{Text, utf8, text_eq, trim_space, cut_prefix}
use datn_backend.Text.Base64.{encode}
use datn_backend.Domain.{second}
use datn_backend.Domain.Claims.{AccessClaims, access}
use datn_backend.Domain.Sessions.{bearer}
use datn_backend.Errors.{ok}
use datn_backend.World.{World, empty_db}
use datn_backend.Token.{verify_token}
use datn_backend.Auth.Setup.{AuthSession, new_auth_use_case}
use datn_backend.Auth.Sessions.{login}
use datn_backend.Http.Json.{Codec}
use datn_backend.Http.Replies.{Request}
use datn_backend.Http.Middleware.{bearer_token}
use datn_backend.Http.Router.{Route, serve}
use datn_backend.Http.Access.{needs, Permitted, IsRefusal, serve-IsRefusal}
use datn_backend.Http.Sessions.{own_agents, list-login}
use datn_backend.Http.Isolation.{serve-others}
use datn_backend.Pairing.Ownership.{others}
use datn_backend.Tests.Environment.{env, env-IsJwt}
use datn_backend.Tests.Auth.{uc, user, phone, password}
use datn_backend.Tests.Pairing.{agent}

-- Every body reads as an object of empty strings.
abbrev pub codec : Codec
codec = record {
  decode = λ texts flags body. some (record { text = λ name. []; flag = λ name. false });
  format_time = λ t. t ∷ [];
}

abbrev request_of : Text → Text → Request
request_of authorization id = record {
  header = λ name. if text_eq name (utf8 "Authorization") then authorization else [];
  query = λ name. [];
  path_value = λ name. id;
  body = [];
  user_id = none;
  register_phone = none;
}

abbrev w : World
w = record {
  db = record empty_db {
    users = record user { id = utf8 "u1" } ∷ record user { id = utf8 "u2"; phone_number = [] } ∷ [];
    pc_agents =
        record agent { id = utf8 "a1"; user_id = utf8 "u1" }
        ∷ record agent { id = utf8 "a2"; user_id = utf8 "u2" }
        ∷ [];
  };
  steps = 16;
}

without_token :
    ¬ Permitted env uc.tokens (needs Route.list_alerts) (request_of (utf8 "Basic x") []) w
unfolding bearer_token cut_prefix
without_token (raw, c, bearer, accepted) = cc bearer

serve-IsRefusal_example :
    IsRefusal w (serve env codec uc Route.list_alerts (request_of (utf8 "Basic x") []) w)
serve-IsRefusal_example =
    serve-IsRefusal env codec uc Route.list_alerts (request_of (utf8 "Basic x") []) w without_token

abbrev session : AuthSession
session = record {
  user = record user { id = utf8 "u1" };
  tokens = record {
    access_token = 3618000000000 ∷ 18000000000 ∷ 18000000000 ∷ 18 ∷ 0 ∷ utf8 "u1";
    refresh_token = utf8 "Ew";
    token_type = bearer;
    expires_at = 3618 * second;
    expires_in = pos 3595;
  };
}

logs_in : (login env uc phone password w).0 ≡ ok session
unfolding login trim_space find any new_auth_use_case encode normalize_phone_number
logs_in = refl

abbrev request : Request
request = request_of (utf8 "Bearer " ++ session.tokens.access_token) (utf8 "a2")

carries : bearer_token request ≡ some session.tokens.access_token
unfolding bearer_token trim_space cut_prefix
carries = refl

plain_id : trim_space (utf8 "u1") ≡ utf8 "u1"
unfolding trim_space
plain_id = refl

-- The world in which the agents are asked for.
abbrev v : World
v = record w { steps = 30 }

list-login_example :
    (serve env codec uc Route.list_pc_agents request v).0 ≡ own_agents env codec (utf8 "u1") v
list-login_example =
    list-login env codec uc phone password w v session request env-IsJwt logs_in (λ e. cc e)
      plain_id carries (omega arith) (omega arith) refl

abbrev claims : AccessClaims
claims = record {
  token_type = access;
  issuer = uc.tokens.issuer;
  subject = utf8 "u1";
  audience = uc.tokens.audience ∷ [];
  expires_at = some 3618000000000;
  not_before = some 18000000000;
  issued_at = some 18000000000;
  id = 18 ∷ [];
}

accepts : (verify_token env uc.tokens session.tokens.access_token access v).0 ≡ ok claims
unfolding verify_token new_auth_use_case
accepts = refl

-- The first user asks for the deletion of the agent of the second.
serve-others_example :
    others
      (trim_space claims.subject)
      (serve env codec uc Route.delete_pc_agent request v).1.pc_agents
    ≡ others (trim_space claims.subject) v.pc_agents
serve-others_example =
    serve-others env codec uc Route.delete_pc_agent request v session.tokens.access_token claims
      refl carries accepts
