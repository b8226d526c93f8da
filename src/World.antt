-- ===== src/World.antt =====
-- What the program runs against: the PostgreSQL tables of internal/database/migrations, and the
-- clocks, random sources and third-party functions that the code calls.
use datn_backend.Prelude.{ℕ, ◌≤◌, ◌<◌, ◌≡◌, Bool, true, Option, some, List, []}
use datn_backend.Prelude.Tables.{any}
use datn_backend.Text.{Text, text_eq}
use datn_backend.Domain.{Time, AuthOtp, User, RefreshToken}
use datn_backend.Domain.Pairing.{PairingSession, PcAgent, MobileDevice}
use datn_backend.Domain.Alerts.{AlertRow}
use datn_backend.Domain.Claims.{AccessClaims}

pub record Db : Type 0 where
  pub users : List User
  pub auth_otps : List AuthOtp
  pub refresh_tokens : List RefreshToken
  pub pairing_sessions : List PairingSession
  pub pc_agents : List PcAgent
  pub mobile_devices : List MobileDevice
  pub alerts : List AlertRow

abbrev pub empty_db : Db
empty_db = record {
  users = [];
  auth_otps = [];
  refresh_tokens = [];
  pairing_sessions = [];
  pc_agents = [];
  mobile_devices = [];
  alerts = [];
}

-- `steps` counts the effects so far, and is what the sources of `Env` are asked with.
pub record World : Type 0 where
  pub db : Db
  pub open db use *
  pub steps : ℕ

-- One function for each source of values outside the program. The first argument of the effects
-- is the step at which they happen, so that a later call may answer otherwise.
pub record Env : Type 0 where
  -- time.Now().UTC(), and NOW() in a statement.
  pub clock : ℕ → Time
  pub db_clock : ℕ → Time
  -- Whether a statement, a BEGIN or a COMMIT fails other than by a unique index.
  pub db_fails : ℕ → Bool
  -- The collation: whether the first text may stand before the second in ascending order.
  pub collate : Text → Text → Bool
  pub gen_random_uuid : ℕ → Text
  -- The second one of a statement.
  pub gen_random_uuid_again : ℕ → Text
  -- rand.Int(rand.Reader, max) and rand.Read of a number of bytes.
  pub rand_int : ℕ → ℕ → Option ℕ
  pub rand_read : ℕ → ℕ → Option Text
  -- golang.org/x/crypto/bcrypt and crypto/sha256 with encoding/hex.
  pub bcrypt_generate : ℕ → Text → Option Text
  pub bcrypt_compare : Text → Text → Bool
  pub sha256_hex : Text → Text
  -- unicode.ToLower and unicode.ToUpper on a text that is not ASCII, mail.ParseAddress.
  pub lower_unicode : Text → Text
  pub upper_unicode : Text → Text
  pub parse_address : Text → Option Text
  -- github.com/golang-jwt/jwt/v5 with HS256: SignedString, and a parser of the secret, the issuer
  -- and the audience at an instant, which has no claims where it reports an error.
  pub jwt_sign : Text → AccessClaims → Option Text
  pub jwt_parse : Text → Text → Text → Time → Text → Option AccessClaims

-- What the code relies on, as the packages document it.
pub record IsBcrypt (env : Env) : Type 0 where
  pub accepts :
      (n : ℕ) (password hash : Text)
      → env.bcrypt_generate n password ≡ some hash
      → env.bcrypt_compare hash password ≡ true

pub record IsRandom (env : Env) : Type 0 where
  pub int_below : (n max k : ℕ) → env.rand_int n max ≡ some k → k < max

-- A signed token that names the audience, among others, is accepted while it is valid, with the claims
-- that were signed, where a date that it lacks does not bound it; the claims of a text do not change.
pub record IsJwt (env : Env) : Type 0 where
  pub accepts :
      (secret audience raw : Text) (at : Time) (claims : AccessClaims)
      → env.jwt_sign secret claims ≡ some raw
      → any (text_eq audience) claims.audience ≡ true
      → ((t : Time) → claims.not_before ≡ some t → t ≤ at)
      → ((t : Time) → claims.expires_at ≡ some t → at < t)
      → env.jwt_parse secret claims.issuer audience at raw ≡ some claims
  pub stable :
      (secret issuer audience raw : Text) (at later : Time) (claims claims' : AccessClaims)
      → env.jwt_parse secret issuer audience at raw ≡ some claims
      → env.jwt_parse secret issuer audience later raw ≡ some claims'
      → claims ≡ claims'
