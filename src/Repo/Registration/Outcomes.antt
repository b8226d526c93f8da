-- ===== src/Repo/Registration/Outcomes.antt =====
-- CompleteRegister of the repository inserts the user and the token, or neither.
use datn_backend.Prelude.{◌+◌, ◌≡◌, false, none, [], ◌∷◌, ◌++◌, arith}
use datn_backend.Prelude.Tables.{any}
use datn_backend.Domain.{User, RefreshToken}
use datn_backend.Errors.{Error, ok, err}
use datn_backend.World.{World, Env}
use datn_backend.Repo.Registration
use datn_backend.Repo.RefreshTokens.{token_row}
use datn_backend.Repo.Users.{has_phone_number}

module _ (env : Env) where
  pub registration_ok :
      (user : User) (token : RefreshToken) (w : World) (created : User)
      → (Registration.complete_register env user token w).0 ≡ ok created
      → (row : RefreshToken) × (any (has_phone_number user.phone_number) w.users ≡ false)
        × (created.phone_number ≡ user.phone_number)
        × (created.full_name ≡ user.full_name)
        × (created.password_hash ≡ user.password_hash)
        × (row.user_id ≡ created.id)
        × (row.token_hash ≡ token.token_hash)
        × (row.revoked_at ≡ none)
        × ((Registration.complete_register env user token w).1.users ≡ w.users ++ created ∷ [])
        × ((Registration.complete_register env user token w).1.refresh_tokens
            ≡ w.refresh_tokens ++ row ∷ [])
  unfolding Registration.complete_register
  registration_ok user token w created h = (
    token_row (env.gen_random_uuid (w.steps + 1 + 1)) (env.db_clock (w.steps + 1 + 1))
        (record token { user_id = created.id }),
    ground arith,
    ground arith,
    ground arith,
    ground arith,
    ground arith,
    ground arith,
    ground arith,
    ground arith,
    ground arith,
  )

  pub registration_err :
      (user : User) (token : RefreshToken) (w : World) (e : Error)
      → (Registration.complete_register env user token w).0 ≡ err e
      → (Registration.complete_register env user token w).1.db ≡ w.db
  unfolding Registration.complete_register
  registration_err user token w e h = ground arith
