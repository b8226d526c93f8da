-- ===== src/Token/Issuing.antt =====
-- Tokens that the service issues, and what it accepts.
use datn_backend.Prelude.{◌+◌, ◌≤◌, ◌<◌, ◌≡◌, ◌≢◌, refl, ap, Option, none, some, true, arith, []}
use datn_backend.Prelude.Tables.{any}
use datn_backend.Text.{Text, text_eq, text_eq_iff, text_eq_refl}
use datn_backend.Domain.{Time}
use datn_backend.Domain.Claims.{AccessClaims, access, register}
use datn_backend.Errors.{invalid_token, ok, err}
use datn_backend.World.{World, Env, IsJwt}
use native.Mathlib.Nat.{le_trans}
use datn_backend.Token.{
  verify_register_token, verify_access_token, Service, AccessToken, claims_of, numeric_date,
  issue_token, verify_token, check_claims,
}

check_claims_accepts :
    (token_type : Text) (claims : AccessClaims)
    → claims.token_type ≡ token_type
    → claims.subject ≢ []
    → check_claims token_type (some claims) ≡ ok claims
check_claims_accepts token_type claims e h =
    ground (arith, text_eq_iff claims.token_type token_type)

-- What a successful call signed.
issue_token_signs :
    (env : Env) (s : Service) (subject token_type : Text) (w : World) (t : AccessToken)
    → (issue_token env s subject token_type w).0 ≡ ok t
    → (env.jwt_sign s.secret
          (claims_of s subject token_type (env.clock w.steps) (env.gen_random_uuid (w.steps + 1)))
        ≡ some t.token)
      × (t.expires_at ≡ env.clock w.steps + s.access_ttl)
unfolding issue_token
issue_token_signs env s subject token_type w t issued = ground arith

numeric_date-le : (t : Time) → numeric_date t ≤ t
numeric_date-le t = omega arith

-- A token that the service issued is accepted as a token of its type, with its subject, by every
-- verification that the clock puts at or after the issue and before the expiry in whole seconds.
pub verify-issue :
    (env : Env) (s : Service) (subject token_type : Text) (w v : World) (t : AccessToken)
    → IsJwt env
    → subject ≢ []
    → (issue_token env s subject token_type w).0 ≡ ok t
    → env.clock w.steps ≤ env.clock v.steps
    → env.clock v.steps < numeric_date t.expires_at
    → (c : AccessClaims) × ((verify_token env s t.token token_type v).0 ≡ ok c)
      × (c.subject ≡ subject)
      × (c.token_type ≡ token_type)
unfolding verify_token
verify-issue env s subject token_type w v t jwt named issued after before =
    let claims : AccessClaims =
      claims_of s subject token_type (env.clock w.steps) (env.gen_random_uuid (w.steps + 1)) in
    let (signed, expiry) = issue_token_signs env s subject token_type w t issued in
    let start = le_trans (numeric_date-le (env.clock w.steps)) after in
    let named_audience : any (text_eq s.audience) claims.audience ≡ true =
      unfold any in rw (text_eq_refl s.audience) refl in
    let parsed =
      jwt.accepts s.secret s.audience t.token (env.clock v.steps) claims signed named_audience
        (λ d e.
          (let same : numeric_date (env.clock w.steps) ≡ d = ground arith in rw same at start))
        (λ d e.
          (let same : numeric_date (env.clock w.steps + s.access_ttl) ≡ d = ground arith in
            let valid = rw expiry at before in rw same at valid)) in
    (claims, rw parsed (check_claims_accepts token_type claims refl named), refl, refl)

accepted-none :
    (token_type : Text) (p : Option AccessClaims)
    → p ≡ none
    → check_claims token_type p ≡ err invalid_token
accepted-none token_type p e = rw e

-- A token that is ever accepted as a registration token is never accepted as an access token, so
-- it opens no route of a user.
pub register_token_is_no_access_token :
    (env : Env) (s : Service) (raw : Text) (w v : World) (c : AccessClaims)
    → IsJwt env
    → (verify_register_token env s raw w).0 ≡ ok c
    → (verify_access_token env s raw v).0 ≡ err invalid_token
unfolding verify_register_token verify_access_token verify_token
register_token_is_no_access_token env s raw w v c jwt accepted =
    apart (env.jwt_parse s.secret s.issuer s.audience (env.clock w.steps) raw)
      (env.jwt_parse s.secret s.issuer s.audience (env.clock v.steps) raw)
      (jwt.stable s.secret s.issuer s.audience raw (env.clock w.steps) (env.clock v.steps)) accepted
  where
    apart :
        (p q : Option AccessClaims)
        → ((a b : AccessClaims) → p ≡ some a → q ≡ some b → a ≡ b)
        → check_claims register p ≡ ok c
        → check_claims access q ≡ err invalid_token
    apart none q one e = cc
    apart (some a) none one e = refl
    apart (some a) (some b) one e =
        let same = one a b refl refl in
        ground
          (arith, text_eq_iff a.token_type register, ap (λ (d : AccessClaims). d.token_type) same)
