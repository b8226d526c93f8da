-- ===== src/Http/Sessions.antt =====
-- A user who has logged in is served as that user.
use datn_backend.Prelude.{◌+◌, ◌≤◌, ◌<◌, ◌≡◌, ◌≢◌, refl, ap, false, [], ◌∷◌, some, arith}
use datn_backend.Prelude.Tables.{select, order_by}
use datn_backend.Text.{Text, trim_space}
use datn_backend.Domain.Claims.{AccessClaims, access}
use datn_backend.Errors.{ok}
use datn_backend.World.{World, Env, IsJwt}
use datn_backend.Repo.PcAgents.{is_of_user}
use datn_backend.Token.{AccessToken, numeric_date, issue_token, verify_token, verify_access_token}
use datn_backend.Token.Issuing.{verify-issue}
use datn_backend.Auth.Setup.{AuthUseCase, AuthSession}
use datn_backend.Auth.Sessions.{login}
use datn_backend.Pairing.Agents.{list_pc_agents}
use datn_backend.Http.Json.{Codec, arr}
use datn_backend.Http.Replies.{Request, Reply, Handler, write_json}
use datn_backend.Http.Middleware.{require_auth, bearer_token, with_user_id}
use datn_backend.Http.PcAgentHandler.{handle_list, pc_agent_items}
use datn_backend.Http.Router.{Route, serve}

module _ (env : Env) (auth : AuthUseCase) where
  -- The token of the session.
  abbrev token_of : AuthSession → AccessToken
  token_of session = record {
    token = session.tokens.access_token;
    expires_at = session.tokens.expires_at;
  }

  login_issues :
      (phone_input password : Text) (w : World) (session : AuthSession)
      → (login env auth phone_input password w).0 ≡ ok session
      → (issue_token env auth.tokens session.user.id access (record w { steps = w.steps + 1 })).0
        ≡ ok (token_of session)
  unfolding login issue_token
  login_issues phone_input password w session h = ground arith

module _ (env : Env) (codec : Codec) where
  pub accepted_auth :
      (auth : AuthUseCase) (next : Handler) (request : Request) (raw : Text) (c : AccessClaims)
      (v : World)
      → bearer_token request ≡ some raw
      → (verify_token env auth.tokens raw access v).0 ≡ ok c
      → require_auth env auth.tokens next request v
        ≡ next (with_user_id c request) (record v { steps = v.steps + 1 })
  unfolding require_auth verify_access_token verify_token
  accepted_auth auth next request raw c v bearer accepted = rw (bearer, accepted) refl

  -- The agents of the user, in the order of their names.
  abbrev pub own_agents : Text → World → Reply
  own_agents user_id v = write_json 200 (
      arr (
        pc_agent_items codec (
          order_by (λ a b. env.collate a.device_name b.device_name)
            (select (is_of_user user_id) v.pc_agents))))

  listed :
      (user_id : Text) (request : Request) (v : World)
      → request.user_id ≡ some user_id
      → user_id ≢ []
      → trim_space user_id ≡ user_id
      → env.db_fails v.steps ≡ false
      → (handle_list env codec request v).0 ≡ own_agents user_id v
  unfolding handle_list list_pc_agents
  listed [] request v e named trimmed works = absurd (named refl)
  listed (b ∷ user_id) request v e named trimmed works = rw (e, trimmed, works) refl

  -- After a login that succeeds, a request for the agents that carries the access token of its
  -- answer is answered, until the token expires, with the agents of the user who logged in and with
  -- no others, in the order of their names, if the query works. The identifier of the user is a
  -- text that is not empty and has no white space at its ends, as a UUID is.
  pub list-login :
      (auth : AuthUseCase) (phone_input password : Text) (w v : World) (session : AuthSession)
      (request : Request)
      → IsJwt env
      → (login env auth phone_input password w).0 ≡ ok session
      → session.user.id ≢ []
      → trim_space session.user.id ≡ session.user.id
      → bearer_token request ≡ some session.tokens.access_token
      → env.clock (w.steps + 1) ≤ env.clock v.steps
      → env.clock v.steps < numeric_date session.tokens.expires_at
      → env.db_fails (v.steps + 1) ≡ false
      → (serve env codec auth Route.list_pc_agents request v).0 ≡ own_agents session.user.id v
  unfolding serve
  list-login auth phone_input password w v session request jwt h named trimmed bearer after before
        works =
      let (c, accepted, subject, _) =
        verify-issue env auth.tokens session.user.id access (record w { steps = w.steps + 1 }) v
          (record { token = session.tokens.access_token; expires_at = session.tokens.expires_at })
          jwt named (login_issues env auth phone_input password w session h) after before in
      rw
        (accepted_auth auth (handle_list env codec) request session.tokens.access_token c v bearer
          accepted)
        (listed session.user.id (with_user_id c request) (record v { steps = v.steps + 1 })
          (ap some subject) named trimmed works)
