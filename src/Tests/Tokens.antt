-- ===== src/Tests/Tokens.antt =====
-- Tokens at concrete inputs.
use datn_backend.Prelude.{ℕ, ◌*◌, ◌≡◌, refl, [], ◌∷◌, arith}
use datn_backend.Text.{Text, utf8}
use datn_backend.Domain.{second}
use datn_backend.Domain.Claims.{AccessClaims, access, register}
use datn_backend.Errors.{ok, err, invalid_token}
use datn_backend.World.{World}
use datn_backend.Token.{
  AccessToken, issue_token, verify_token, verify_access_token, verify_register_token, claims_of,
}
use datn_backend.Token.Issuing.{verify-issue, register_token_is_no_access_token}
use datn_backend.Tests.Environment.{env, empty_world, env-IsJwt}
use datn_backend.Tests.Auth.{service}

abbrev user_id : Text
user_id = utf8 "u1"

abbrev token_of : ℕ → AccessToken
token_of flag = record {
  token = 3601000000000 ∷ 1000000000 ∷ 1000000000 ∷ 1 ∷ flag ∷ user_id;
  expires_at = 3601 * second;
}

issued : (issue_token env service user_id access empty_world).0 ≡ ok (token_of 0)
unfolding issue_token
issued = refl

-- Ten minutes later.
abbrev later : World
later = record empty_world { steps = 600 }

verify-issue_example :
    (c : AccessClaims) × ((verify_token env service (token_of 0).token access later).0 ≡ ok c)
    × (c.subject ≡ user_id)
    × (c.token_type ≡ access)
verify-issue_example =
    verify-issue env service user_id access empty_world later (token_of 0) env-IsJwt (ground arith)
      issued (omega arith) (omega arith)

abbrev claims : Text → AccessClaims
claims token_type = claims_of service user_id token_type second (1 ∷ [])

registers : (verify_register_token env service (token_of 1).token later).0 ≡ ok (claims register)
unfolding verify_register_token verify_token
registers = refl

register_token_is_no_access_token_example :
    (verify_access_token env service (token_of 1).token empty_world).0 ≡ err invalid_token
register_token_is_no_access_token_example =
    register_token_is_no_access_token env service (token_of 1).token later empty_world
      (claims register) env-IsJwt registers
