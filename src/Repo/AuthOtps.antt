-- ===== src/Repo/AuthOtps.antt =====
-- internal/repo/postgres/auth_otp_repo.go.
use datn_backend.Prelude.{
  ℕ, ◌+◌, Bool, ◌&&◌, Option, none, some, List, [], ◌∷◌, ◌++◌, if◌then◌else◌,
}
use datn_backend.Prelude.Tables.{any, update, select, newest}
use datn_backend.Text.{Text, text_eq}
use datn_backend.Domain.{Time, AuthOtp}
use datn_backend.Errors.{repo, unique_violation, Result, ok, err, RepoError}
use datn_backend.World.{Env}
use datn_backend.Action.{Action, statement, query}

abbrev pub has_id : Text → AuthOtp → Bool
has_id id otp = text_eq otp.id id

-- WHERE phone_number = $1 AND purpose = $2
abbrev pub is_for : Text → Text → AuthOtp → Bool
is_for phone_number purpose otp =
    text_eq otp.phone_number phone_number && text_eq otp.purpose purpose

abbrev or_otp_not_found : Option AuthOtp → Result AuthOtp
or_otp_not_found none = err (repo RepoError.otp_not_found)
or_otp_not_found (some otp) = ok otp

-- The row of `find_latest`.
unfoldable pub latest_otp : Text → Text → List AuthOtp → Option AuthOtp
latest_otp phone_number purpose otps =
    newest (λ otp. otp.created_at) (select (is_for phone_number purpose) otps)

abbrev pub with_one_more_attempt : AuthOtp → AuthOtp
with_one_more_attempt otp = record otp { attempt_count = otp.attempt_count + 1 }

abbrev pub used : Time → AuthOtp → AuthOtp
used at otp = record otp { used_at = some at }

-- The columns of the INSERT; id, used_at and created_at have their defaults.
abbrev pub otp_row : Text → Time → AuthOtp → AuthOtp
otp_row id created otp = record otp { id = id; used_at = none; created_at = created }

module _ (env : Env) where
  unfoldable pub create : AuthOtp → Action AuthOtp
  unfolding statement
  create otp = statement env λ n db.
      let row = otp_row (env.gen_random_uuid n) (env.db_clock n) otp in
      if any (has_id row.id) db.auth_otps
      then (err unique_violation, db)
      else (ok row, record db { auth_otps = db.auth_otps ++ row ∷ [] })

  unfoldable pub find_latest : Text → Text → Action AuthOtp
  unfolding query
  find_latest phone_number purpose =
      query env λ db. or_otp_not_found (latest_otp phone_number purpose db.auth_otps)

  -- UPDATE … WHERE id = $1, and an error if it affects no row.
  set_otp : Text → (ℕ → AuthOtp → AuthOtp) → Action (Unit {0})
  set_otp id change = statement env λ n db.
      if any (has_id id) db.auth_otps
      then (ok tt, record db { auth_otps = update (has_id id) (change n) db.auth_otps })
      else (err (repo RepoError.otp_not_found), db)

  unfoldable pub increment_attempt : Text → Action (Unit {0})
  unfolding set_otp statement
  increment_attempt id = set_otp id λ n. with_one_more_attempt

  unfoldable pub mark_used : Text → Action (Unit {0})
  unfolding set_otp statement
  mark_used id = set_otp id λ n. used (env.db_clock n)
