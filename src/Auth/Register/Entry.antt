-- ===== src/Auth/Register/Entry.antt =====
-- Login after CompleteRegister.
use datn_backend.Prelude.{◌∙◌, ◌+◌, ◌≡◌, refl, true, false, some, [], ◌∷◌, ◌++◌, arith}
use datn_backend.Prelude.Tables.{find, any, any-append, find-append_none, find-none_of_any}
use datn_backend.Text.{Text, trim_space, is_empty, text_eq_iff, text_eq_refl}
use datn_backend.Text.Base64.{encode}
use datn_backend.Domain.{User}
use datn_backend.Domain.Claims.{access}
use datn_backend.Errors.{Result, ok}
use datn_backend.World.{World, Env, IsBcrypt}
use datn_backend.Repo.Users
use datn_backend.Repo.Users.{has_phone_number}
use datn_backend.Repo.RefreshTokens
use datn_backend.Repo.RefreshTokens.{has_hash}
use datn_backend.Token.{claims_of}
use datn_backend.Auth.Inputs.{normalize_phone_number}
use datn_backend.Auth.Setup.{AuthUseCase, AuthSession}
use datn_backend.Auth.Register.{complete_register}
use datn_backend.Auth.Register.Completion.{complete_register_ok}
use datn_backend.Auth.Sessions.{login, issue_session}

find_new :
    (phone_number : Text) (user : User)
    → user.phone_number ≡ phone_number
    → find (has_phone_number phone_number) (user ∷ []) ≡ some user
unfolding find
find_new phone_number user same = ground (arith, text_eq_iff user.phone_number phone_number)

any-has_id-new : (user : User) → any (Users.has_id user.id) (user ∷ []) ≡ true
unfolding any
any-has_id-new user = rw (text_eq_refl user.id) refl

module _ (env : Env) (uc : AuthUseCase) where
  -- A session of the user, with these tokens.
  abbrev pub IsSession : User → Text → Text → Result AuthSession → Type 0
  IsSession user raw refresh_token r =
      (s : AuthSession) × (r ≡ ok s)
      × (s.user ≡ user)
      × (s.tokens.access_token ≡ raw)
      × (s.tokens.refresh_token ≡ refresh_token)

  module _ (user : User) (w : World) (raw bytes : Text)
      (known : any (Users.has_id user.id) w.users ≡ true)
      (signed : env.jwt_sign uc.tokens.secret (
          claims_of uc.tokens user.id access
            (env.clock w.steps)
            (env.gen_random_uuid (w.steps + 1)))
        ≡ some raw)
      (drawn : env.rand_read (w.steps + 1 + 1) 32 ≡ some bytes)
      (works : env.db_fails (w.steps + 1 + 1 + 1 + 1) ≡ false)
      (new_id : any
          (RefreshTokens.has_id (env.gen_random_uuid (w.steps + 1 + 1 + 1 + 1)))
          w.refresh_tokens
        ≡ false)
      (new_hash : any (has_hash (env.sha256_hex (encode bytes))) w.refresh_tokens ≡ false) where
    issue_session_ok : IsSession user raw (encode bytes) (issue_session env uc user w).0
    unfolding issue_session
    issue_session_ok =
        rw signed
          (rw drawn (rw works (rw (new_id, new_hash) (rw known (_, refl, refl, refl, refl)))))

  -- A login with the password of the user.
  login_enters :
      (phone_input phone_number password : Text) (v : World) (user : User)
      → normalize_phone_number phone_input ≡ ok phone_number
      → is_empty (trim_space password) ≡ false
      → env.db_fails v.steps ≡ false
      → find (has_phone_number phone_number) v.users ≡ some user
      → env.bcrypt_compare user.password_hash password ≡ true
      → (login env uc phone_input password v).0
        ≡ (issue_session env uc user (record v { steps = v.steps + 1 })).0
  unfolding login
  login_enters phone_input phone_number password v user named given works found matches =
      rw named (rw given (rw (works, found) (rw matches refl)))

  -- After a registration that succeeds, a login with the same number and password succeeds and
  -- answers with a session of the registered user, as long as the users are those that the
  -- registration left, if the password is not white space only, which Login refuses. The two
  -- statements of the login, the signing of its access token and its random bytes do not fail, and no
  -- stored refresh token has the identifier or the hash of the one that it issues.
  pub login-complete_register :
      (phone_input name_input password raw bytes : Text) (w v : World) (session : AuthSession)
      → IsBcrypt env
      → (complete_register env uc phone_input name_input password w).0 ≡ ok session
      → v.users ≡ (complete_register env uc phone_input name_input password w).1.users
      → is_empty (trim_space password) ≡ false
      → env.db_fails v.steps ≡ false
      → env.jwt_sign uc.tokens.secret (
          claims_of uc.tokens session.user.id access
            (env.clock (v.steps + 1))
            (env.gen_random_uuid (v.steps + 1 + 1)))
        ≡ some raw
      → env.rand_read (v.steps + 1 + 1 + 1) 32 ≡ some bytes
      → env.db_fails (v.steps + 1 + 1 + 1 + 1 + 1) ≡ false
      → any
          (RefreshTokens.has_id (env.gen_random_uuid (v.steps + 1 + 1 + 1 + 1 + 1)))
          v.refresh_tokens
        ≡ false
      → any (has_hash (env.sha256_hex (encode bytes))) v.refresh_tokens ≡ false
      → IsSession session.user raw (encode bytes) (login env uc phone_input password v).0
  login-complete_register phone_input name_input password raw bytes w v session bcrypt h kept given
        works signed drawn works' new_id new_hash =
      let (n, named, long, c) =
        complete_register_ok env uc phone_input name_input password w session h in
      let users : v.users ≡ w.users ++ session.user ∷ [] = kept ∙ c.added_user in
      let before =
        find-append_none (has_phone_number n) w.users (session.user ∷ [])
          (find-none_of_any _ w.users c.fresh) in
      let found : find (has_phone_number n) v.users ≡ some session.user =
        rw users (before ∙ find_new n session.user c.named) in
      let known : any (Users.has_id session.user.id) v.users ≡ true =
        rw (users, any-append (Users.has_id session.user.id) w.users (session.user ∷ []))
          (let new = any-has_id-new session.user in ground (arith, new)) in
      rw
        (login_enters phone_input n password v session.user named given works found
          (bcrypt.accepts c.at password session.user.password_hash c.hashed))
        (issue_session_ok session.user (record v { steps = v.steps + 1 }) raw bytes known signed
          drawn works' new_id new_hash)
