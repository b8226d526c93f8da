-- ===== src/Http/Leaves.antt =====
-- An invariant of the tables that a handler keeps.
use datn_backend.Prelude.{inl, inr, Option, none, some, List, length, ltb, Bool-cases, Option-cases}
use datn_backend.Text.{Text}
use datn_backend.Errors.{Error, Result, ok, err}
use datn_backend.World.{World, Db, Env}
use datn_backend.Action.{Action}
use datn_backend.Action.Keeps.{Keeps, keeps_rules}
use datn_backend.Domain.Claims.{AccessClaims, access, register}
use datn_backend.Token.{Service, verify_access_token, verify_register_token, verify_token}
use datn_backend.Http.Json.{Codec, Decoded}
use datn_backend.Http.Replies.{
  Request, Reply, Handler, decode_json, answer, reply_of, max_request_body_bytes,
}
use datn_backend.Http.Middleware
use datn_backend.Http.Middleware.{
  require_auth, require_register_auth, on_claims, bearer_token, with_value, user_id_from_context,
  register_phone_from_context,
}

-- What answers a request keeps P.
pub record Leaves (P : Db → Type 0) (f : World → Reply × World) : Type 0 where
  pub at : (w : World) → P w.db → P (f w).1.db

replied :
    (P : Db → Type 0) {A : Type 0} (on_error : Error → Reply) (on_ok : A → Reply)
    (r : Result A × World)
    → P r.1.db
    → P (reply_of on_error on_ok r).1.db
replied P on_error on_ok (ok a, v) h = h
replied P on_error on_ok (err e, v) h = h

module _ {P : Db → Type 0} where
  pub answer-Leaves :
      {A : Type 0} (on_error : Error → Reply) (on_ok : A → Reply) (m : Action A)
      → Keeps P m
      → Leaves P (answer on_error on_ok m)
  answer-Leaves on_error on_ok m k = record {
    at = λ w h. replied P on_error on_ok (m w) (k.at w h);
  }

  pub decoded-Leaves :
      (codec : Codec) (texts flags : List Text) (request : Request)
      (f : Decoded → World → Reply × World)
      → ((fields : Decoded) → Leaves P (f fields))
      → Leaves P (decode_json codec texts flags request f)
  unfolding decode_json
  decoded-Leaves codec texts flags request f k = record {
    at = λ w h. elim (Bool-cases (ltb max_request_body_bytes (length request.body))) [
      | inl e ↦ rw e h
      | inr e ↦ elim (Option-cases (codec.decode texts flags request.body)) [
        | inl failed ↦ rw (e, failed) h
        | inr (fields, read) ↦ rw (e, read) ((k fields).at w h)
      ]
    ];
  }

  pub with_value-Leaves :
      (missing : Text) (o : Option Text) (f : Text → World → Reply × World)
      → ((value : Text) → Leaves P (f value))
      → Leaves P (with_value missing o f)
  with_value-Leaves missing none f k = record { at = λ w h. h }
  with_value-Leaves missing (some value) f k = record { at = (k value).at }

  on_claims-Leaves :
      (add : AccessClaims → Request → Request) (next : Handler) (request : Request)
      (r : Result AccessClaims × World)
      → ((q : Request) → Leaves P (next q))
      → P r.1.db
      → P (on_claims add next request r).1.db
  on_claims-Leaves add next request (ok claims, w) k h = (k (add claims request)).at w h
  on_claims-Leaves add next request (err e, w) k h = h

  verify_token-Keeps :
      (env : Env) (s : Service) (raw token_type : Text)
      → Keeps P (verify_token env s raw token_type)
  unfolding verify_token
  verify_token-Keeps env s raw token_type = search keeps_rules

  pub require_auth-Leaves :
      (env : Env) (s : Service) (next : Handler) (request : Request)
      → ((q : Request) → Leaves P (next q))
      → Leaves P (require_auth env s next request)
  unfolding require_auth verify_access_token
  require_auth-Leaves env s next request k = record {
    at = λ w h. elim (Option-cases (bearer_token request)) [
      | inl e ↦ rw e h
      | inr (raw, e) ↦ rw e (
          on_claims-Leaves Middleware.with_user_id next request (verify_token env s raw access w) k
            ((verify_token-Keeps env s raw access).at w h))
    ];
  }

  pub require_register_auth-Leaves :
      (env : Env) (s : Service) (next : Handler) (request : Request)
      → ((q : Request) → Leaves P (next q))
      → Leaves P (require_register_auth env s next request)
  unfolding require_register_auth verify_register_token
  require_register_auth-Leaves env s next request k = record {
    at = λ w h. elim (Option-cases (bearer_token request)) [
      | inl e ↦ rw e h
      | inr (raw, e) ↦ rw e (
          on_claims-Leaves Middleware.with_register_phone next request
            (verify_token env s raw register w) k ((verify_token-Keeps env s raw register).at w h))
    ];
  }

  pub ruleset leaves_rules = (answer-Leaves, decoded-Leaves, with_value-Leaves)
