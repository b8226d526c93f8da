-- ===== src/Tests/Sessions.antt =====
-- Refresh, logout and logout from all devices at concrete inputs.
use datn_backend.Prelude.{◌*◌, ◌≡◌, ◌≢◌, refl, true, none, some, List, [], ◌∷◌}
use datn_backend.Prelude.Int.{pos}
use datn_backend.Prelude.Tables.{find, any, update}
use datn_backend.Text.{Text, utf8, trim_space, text_eq}
use datn_backend.Text.Base64.{encode}
use datn_backend.Domain.{RefreshToken, second}
use datn_backend.Domain.Sessions.{AuthTokens, bearer}
use datn_backend.Errors.{ok}
use datn_backend.World.{World, empty_db}
use datn_backend.Repo.RefreshTokens.{has_hash, replace}
use datn_backend.Auth.Setup.{new_auth_use_case}
use datn_backend.Auth.Sessions.{rotate, refresh, logout, logout_all}
use datn_backend.Auth.Requests.{Request, serve_all}
use datn_backend.Auth.Revocation.{logout_all_once}
use datn_backend.Tests.Environment.{env}
use datn_backend.Tests.Auth.{uc, user, phone, password}

abbrev stored : RefreshToken
stored = record {
  id = 11 ∷ [];
  user_id = utf8 "u1";
  token_hash = utf8 "#Bg";
  expires_at = 2592009 * second;
  revoked_at = none;
  created_at = 12 * second;
}

abbrev pub w : World
w = record {
  db = record empty_db {
    users = record user { id = utf8 "u1" } ∷ [];
    refresh_tokens = stored ∷ [];
  };
  steps = 16;
}

-- The client pads the token with spaces.
abbrev pub input : Text
input = utf8 " Bg "

abbrev tokens : AuthTokens
tokens = record {
  access_token = 3620000000000 ∷ 20000000000 ∷ 20000000000 ∷ 20 ∷ 0 ∷ utf8 "u1";
  refresh_token = utf8 "FQ";
  token_type = bearer;
  expires_at = 3620 * second;
  expires_in = pos 3592;
}

refreshes : (refresh env uc input w).0 ≡ ok tokens
unfolding refresh trim_space find rotate any update new_auth_use_case encode replace
refreshes = refl

-- The attacker presents the token again, after the user has logged in once more and logged out.
abbrev requests : List Request
requests =
    Request.login phone password ∷ Request.refresh (utf8 "FQ") ∷ Request.logout (utf8 "FQ") ∷ []

logs_out : (logout env input w).0 ≡ ok tt
unfolding logout trim_space any
logs_out = refl

logs_out_all : (logout_all env (utf8 " u1 ") w).0 ≡ ok tt
unfolding logout_all trim_space
logs_out_all = refl

found : find (has_hash (env.sha256_hex (trim_space input))) w.refresh_tokens ≡ some stored
unfolding trim_space find
found = refl

owned : text_eq stored.user_id (trim_space (utf8 " u1 ")) ≡ true
unfolding trim_space
owned = refl

logout_all_once_example :
    (refresh env uc input (serve_all env uc (logout_all env (utf8 " u1 ") w).1 requests)).0
    ≢ ok tokens
logout_all_once_example =
    logout_all_once env uc (utf8 " u1 ") input w stored tokens requests logs_out_all found owned
