-- ===== src/Auth/Register/Completion.antt =====
-- CompleteRegister stores the user and a refresh token together, or nothing.
use datn_backend.Prelude.{
  ◌∙◌, ap, ◌≤◌, ◌⊎◌, length, ltb, ℕ, ◌+◌, ◌≡◌, ◌≢◌, false, not, ◌||◌, none, some, [], ◌∷◌, ◌++◌,
  arith, inl, inr, Bool-cases, Option-cases,
}
use datn_backend.Prelude.Tables.{find, any}
use datn_backend.Text.{is_empty, Text, trim_space, text_eq_iff}
use datn_backend.Domain.{User, RefreshToken}
use datn_backend.Text.Base64.{encode}
use datn_backend.Errors.{is_ok, Result-cases, Error, sign_failed, ok, err}
use datn_backend.World.{World, Db, Env}
use datn_backend.Repo.Registration
use datn_backend.Repo.Users.{has_phone_number}
use datn_backend.Repo.Registration.Outcomes.{registration_ok, registration_err}
use datn_backend.Auth.Inputs.{normalize_phone_number}
use datn_backend.Auth.Setup.{AuthUseCase, new_refresh_token, AuthSession}
use datn_backend.Auth.Register.{new_user, create_account, complete_register}

find_new :
    (phone_number : Text) (user : User)
    → user.phone_number ≡ phone_number
    → find (has_phone_number phone_number) (user ∷ []) ≡ some user
unfolding find
find_new phone_number user same = ground (arith, text_eq_iff user.phone_number phone_number)

module _ (env : Env) (uc : AuthUseCase) where
  -- What a successful registration stores.
  pub record Completion (phone_number full_name password : Text) (w v : Db) (session : AuthSession)
      : Type 0 where
    pub token : RefreshToken
    pub at : ℕ
    pub named : session.user.phone_number ≡ phone_number
    pub titled : session.user.full_name ≡ full_name
    pub fresh : any (has_phone_number phone_number) w.users ≡ false
    pub hashed : env.bcrypt_generate at password ≡ some session.user.password_hash
    pub added_user : v.users ≡ w.users ++ session.user ∷ []
    pub added_token : v.refresh_tokens ≡ w.refresh_tokens ++ token ∷ []
    pub owner : token.user_id ≡ session.user.id
    pub presented : token.token_hash ≡ env.sha256_hex session.tokens.refresh_token
    pub live : token.revoked_at ≡ none

  abbrev before_insert : World → World
  before_insert w = record w { steps = w.steps + 1 + 1 + 1 }

  create_account_stores :
      (phone_number full_name password : Text) (w : World) (session : AuthSession)
      → (create_account env uc phone_number full_name password w).0 ≡ ok session
      → (password_hash : Text) × (env.bcrypt_generate (w.steps + 1) password ≡ some password_hash)
        × (let token =
              new_refresh_token []
                (env.sha256_hex session.tokens.refresh_token)
                (env.clock (w.steps + 1 + 1) + uc.refresh_token_ttl) in
            let stored =
              Registration.complete_register env
                (new_user phone_number full_name password_hash)
                token
                (before_insert w) in
            (stored.0 ≡ ok session.user)
            × ((create_account env uc phone_number full_name password w).1.db ≡ stored.1.db))
  unfolding create_account
  create_account_stores phone_number full_name password w session h =
      elim (Option-cases (env.bcrypt_generate (w.steps + 1) password)) [
        | inl e ↦ ground arith
        | inr (hash, e) ↦ (hash, e, (ground arith, ground arith))
      ]

  create_account_err :
      (phone_number full_name password : Text) (w : World) (e : Error)
      → (create_account env uc phone_number full_name password w).0 ≡ err e
      → e ≢ sign_failed
      → (create_account env uc phone_number full_name password w).1.db ≡ w.db
  unfolding create_account
  create_account_err phone_number full_name password w e h other =
      elim (Option-cases (env.rand_read w.steps 32)) [
        | inl p ↦ ground arith
        | inr (bytes, p) ↦ elim (Option-cases (env.bcrypt_generate (w.steps + 1) password)) [
          | inl q ↦ ground arith
          | inr (hash, q) ↦
              (let token =
                  new_refresh_token [] (env.sha256_hex (encode bytes))
                    (env.clock (w.steps + 1 + 1) + uc.refresh_token_ttl) in
                let user = new_user phone_number full_name hash in
                elim (Result-cases
                  (Registration.complete_register env user token (before_insert w)).0) [
                    | inl (f, r) ↦
                        (let undone = registration_err env user token (before_insert w) f r in
                          ground arith)
                    | inr (u, r) ↦ ground arith
                  ])
        ]
      ]

  account_stored :
      (phone_number full_name password : Text) (w : World) (session : AuthSession)
      → (create_account env uc phone_number full_name password w).0 ≡ ok session
      → Completion phone_number full_name password w.db
          (create_account env uc phone_number full_name password w).1.db
          session
  account_stored phone_number full_name password w session h =
      let (hash, hashed, (stored, after)) =
        create_account_stores phone_number full_name password w session h in
      let (row, fresh, named, titled, same, owner, presented, live, users, tokens) =
        registration_ok env (new_user phone_number full_name hash) _ (before_insert w) session.user
          stored in
      record {
        token = row;
        at = w.steps + 1;
        named = named;
        titled = titled;
        fresh = fresh;
        hashed = rw same hashed;
        added_user = ap (λ (db : Db). db.users) after ∙ users;
        added_token = ap (λ (db : Db). db.refresh_tokens) after ∙ tokens;
        owner = owner;
        presented = presented;
        live = live;
      }

  -- A call is refused by a check, or creates the account of the normalized number.
  complete_register_reaches :
      (phone_input name_input password : Text) (w : World)
      → ((is_ok (complete_register env uc phone_input name_input password w).0 ≡ false)
          × ((complete_register env uc phone_input name_input password w).1.db ≡ w.db))
        ⊎ ((phone_number : Text) × (normalize_phone_number phone_input ≡ ok phone_number)
            × (8 ≤ length password)
            × (complete_register env uc phone_input name_input password w
                ≡ create_account env uc phone_number
                    (trim_space name_input)
                    password
                    (record w { steps = w.steps + 1 })))
  unfolding complete_register
  complete_register_reaches phone_input name_input password w =
      elim (Result-cases (normalize_phone_number phone_input)) [
        | inl (e, h) ↦ inl (ground arith, ground arith)
        | inr (n, h) ↦
            (let test = not (is_empty (trim_space name_input) || ltb (length password) 8) in
              elim (Bool-cases test) [
                | inl t ↦ elim (Option-cases (find (has_phone_number n) w.users)) [
                  | inl f ↦ elim (Bool-cases (env.db_fails w.steps)) [
                    | inl d ↦ inl (ground arith, ground arith)
                    | inr d ↦ inr (n, h, ground arith, ground arith)
                  ]
                  | inr (u, f) ↦ inl (ground arith, ground arith)
                ]
                | inr t ↦ inl (ground arith, ground arith)
              ])
      ]

  -- A registration that succeeds adds one user, of the normalized number, with the trimmed name
  -- and a hash of the password, and one refresh token of that user, not revoked, with the hash of
  -- the token of the answer; no user had the number before.
  pub complete_register_ok :
      (phone_input name_input password : Text) (w : World) (session : AuthSession)
      → (complete_register env uc phone_input name_input password w).0 ≡ ok session
      → (phone_number : Text) × (normalize_phone_number phone_input ≡ ok phone_number)
        × (8 ≤ length password)
        × Completion phone_number
            (trim_space name_input)
            password
            w.db
            (complete_register env uc phone_input name_input password w).1.db
            session
  complete_register_ok phone_input name_input password w session h =
      elim (complete_register_reaches phone_input name_input password w) [
        | inl (refused, _) ↦ absurd (ground arith)
        | inr (n, named, long, same) ↦ (
          n,
          named,
          long,
          rw same (
              account_stored n (trim_space name_input) password (record w { steps = w.steps + 1 })
                session (rw same at h)),
        )
      ]

  -- A registration that fails, other than by signing the access token, leaves every table as it
  -- was.
  pub complete_register_err :
      (phone_input name_input password : Text) (w : World) (e : Error)
      → (complete_register env uc phone_input name_input password w).0 ≡ err e
      → e ≢ sign_failed
      → (complete_register env uc phone_input name_input password w).1.db ≡ w.db
  complete_register_err phone_input name_input password w e h other =
      elim (complete_register_reaches phone_input name_input password w) [
        | inl (_, same) ↦ same
        | inr (n, named, long, same) ↦ rw same (
            create_account_err n (trim_space name_input) password (record w { steps = w.steps + 1 })
              e (rw same at h) other)
      ]
