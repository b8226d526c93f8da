-- ===== src/Server/Sessions.antt =====
-- The refresh and the logout route over the whole life of the server.
use datn_backend.Prelude.{
  ◌≡◌, ◌≢◌, refl, inl, inr, false, some, [], ◌∷◌, arith, ltb, length, Bool-cases, Option-cases,
}
use datn_backend.Text.{Text, trim_space}
use datn_backend.Domain.Sessions.{AuthTokens}
use datn_backend.Errors.{Error, Result, ok, err}
use datn_backend.World.{World, Env}
use datn_backend.Auth.Sessions
use datn_backend.Auth.Setup.{AuthUseCase}
use datn_backend.Auth.Revocation.{
  IsRevoked, IsRevoked-Rules, refresh_refuses, refresh-IsRevoked, logout-IsRevoked,
}
use datn_backend.Alerts.Keeps.{create_alert_from_agent-Keeps}
use datn_backend.Http.Json.{Codec, Decoded}
use datn_backend.Http.Replies.{Request, Reply, max_request_body_bytes, decode_json, reply_of}
use datn_backend.Http.AuthHandler.{
  refresh_error, logout_error, refresh_token_key, handle_refresh, handle_logout,
}
use datn_backend.Http.Router.{Route, serve}
use datn_backend.Server.Steps.{Process, Reach}
use datn_backend.Server.Keeps.{Reach-Keeps}

refresh_error-status : (e : Error) → (refresh_error e).status ≢ 200
refresh_error-status e h = ground arith

logout_error-status : (e : Error) → (logout_error e).status ≢ 200
logout_error-status e h = ground arith

module _ (codec : Codec) where
  -- What a handler reads of the body.
  abbrev Reads : Request → Decoded → Type 0
  Reads q fields =
      (ltb max_request_body_bytes (length q.body) ≡ false)
      × (codec.decode (refresh_token_key ∷ []) [] q.body ≡ some fields)

  opened :
      (f : Decoded → World → Reply × World) (q : Request) (w : World)
      → (decode_json codec (refresh_token_key ∷ []) [] q f w).0.status ≡ 200
      → (fields : Decoded) × Reads q fields
        × (decode_json codec (refresh_token_key ∷ []) [] q f w ≡ f fields w)
  unfolding decode_json
  opened f q w h = elim (Bool-cases (ltb max_request_body_bytes (length q.body))) [
    | inl e ↦ (let bad = rw e at h in absurd (omega arith))
    | inr e ↦ elim (Option-cases (codec.decode (refresh_token_key ∷ []) [] q.body)) [
      | inl n ↦ (let bad = rw (e, n) at h in absurd (omega arith))
      | inr (fields, d) ↦ (fields, (e, d), rw (e, d) refl)
    ]
  ]

module _ {A : Type 0} (on_error : Error → Reply) (on_ok : A → Reply)
    (fails : (e : Error) → (on_error e).status ≢ 200) where
  answered :
      (r : Result A × World)
      → (reply_of on_error on_ok r).0.status ≡ 200
      → (a : A) × (r.0 ≡ ok a) × ((reply_of on_error on_ok r).1 ≡ r.1)
  answered (ok a, w) h = (a, refl, refl)
  answered (err e, w) h = absurd (fails e h)

module _ (env : Env) (codec : Codec) (auth : AuthUseCase) where
  -- A 200 is the success of the use case on what the body says, and leaves its tables.
  refreshed :
      (q : Request) (w : World)
      → (serve env codec auth Route.refresh q w).0.status ≡ 200
      → (fields : Decoded) × Reads codec q fields
        × (tokens : AuthTokens) × ((Sessions.refresh env auth (fields.text refresh_token_key) w).0
            ≡ ok tokens)
        × ((serve env codec auth Route.refresh q w).1
            ≡ (Sessions.refresh env auth (fields.text refresh_token_key) w).1)
  unfolding serve handle_refresh
  refreshed q w h =
      let (fields, read, same) = opened codec _ q w h in
      let (tokens, done, after) =
        answered refresh_error _ refresh_error-status
          (Sessions.refresh env auth (fields.text refresh_token_key) w) (rw same at h) in
      (fields, read, tokens, done, rw same after)

  logged_out :
      (q : Request) (w : World)
      → (serve env codec auth Route.logout q w).0.status ≡ 200
      → (fields : Decoded) × Reads codec q fields
        × ((Sessions.logout env (fields.text refresh_token_key) w).0 ≡ ok tt)
        × ((serve env codec auth Route.logout q w).1
            ≡ (Sessions.logout env (fields.text refresh_token_key) w).1)
  unfolding serve handle_logout
  logged_out q w h =
      let (fields, read, same) = opened codec _ q w h in
      let (done, ran, after) =
        answered logout_error _ logout_error-status
          (Sessions.logout env (fields.text refresh_token_key) w) (rw same at h) in
      (fields, read, ran, rw same after)

module _ (p : Process) where
  abbrev token_hash : Decoded → Text
  token_hash fields = p.env.sha256_hex (trim_space (fields.text refresh_token_key))

  Reach-IsRevoked :
      {w v : World} (h : Text)
      → IsRevoked h w.refresh_tokens
      → Reach p w v
      → IsRevoked h v.refresh_tokens
  Reach-IsRevoked h k r =
      Reach-Keeps p (IsRevoked-Rules h)
        (record {
          agent_insertion = λ row db e h. h;
          agent_update = λ q f db same h. h;
          agent_removal = λ id user_id db h. h;
          session_rows = λ rows db h. h;
          device_rows = λ rows db h. h;
        })
        (create_alert_from_agent-Keeps p.env (λ rows db h. h) (λ row db e h. h) p.notifications) k r

  refused :
      {u v : World} (q : Request) (fields : Decoded)
      → Reads p.codec q fields
      → IsRevoked (token_hash fields) u.refresh_tokens
      → Reach p u v
      → (serve p.env p.codec p.auth Route.refresh q v).0.status ≢ 200
  refused {v = v} q fields read dead r h =
      let (fields', read', tokens, done, _) = refreshed p.env p.codec p.auth q v h in
      let same : fields' ≡ fields = cc (read.1, read'.1) in
      refresh_refuses p.env p.auth (fields.text refresh_token_key) v tokens
        (Reach-IsRevoked (token_hash fields) dead r) (rw same at done)

  -- A request to the refresh route that was answered with status 200 is never answered with 200
  -- again, whatever HTTP requests to any route and MQTT messages are handled in between.
  pub refresh_route_once :
      (w : World) {v : World} (q : Request)
      → (serve p.env p.codec p.auth Route.refresh q w).0.status ≡ 200
      → Reach p (serve p.env p.codec p.auth Route.refresh q w).1 v
      → (serve p.env p.codec p.auth Route.refresh q v).0.status ≢ 200
  refresh_route_once w q h r =
      let (fields, read, tokens, done, after) = refreshed p.env p.codec p.auth q w h in
      refused q fields read
        (rw after (refresh-IsRevoked p.env p.auth (fields.text refresh_token_key) w tokens done)) r

  -- Once the logout route has answered a request with status 200, the refresh route never answers a
  -- request with the same body with 200, whatever HTTP requests to any route and MQTT messages are
  -- handled in between.
  pub logout_route_once :
      (w : World) {v : World} (q : Request)
      → (serve p.env p.codec p.auth Route.logout q w).0.status ≡ 200
      → Reach p (serve p.env p.codec p.auth Route.logout q w).1 v
      → (serve p.env p.codec p.auth Route.refresh q v).0.status ≢ 200
  logout_route_once w q h r =
      let (fields, read, done, after) = logged_out p.env p.codec p.auth q w h in
      refused q fields read
        (rw after (logout-IsRevoked p.env p.auth (fields.text refresh_token_key) w done)) r
