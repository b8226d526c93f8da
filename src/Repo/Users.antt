-- ===== src/Repo/Users.antt =====
-- internal/repo/postgres/user_repo.go.
use datn_backend.Prelude.{
  ℕ, Bool, false, not, ◌&&◌, ◌||◌, Option, none, some, List, [], ◌∷◌, ◌++◌, if◌then◌else◌,
}
use datn_backend.Prelude.Tables.{find, any, update}
use datn_backend.Text.{Text, text_eq}
use datn_backend.Domain.{Time, User}
use datn_backend.Errors.{repo, unique_violation, Result, ok, err, RepoError}
use datn_backend.World.{Db, Env}
use datn_backend.Action.{Action, statement, query}

abbrev pub has_id : Text → User → Bool
has_id id user = text_eq user.id id

abbrev pub has_phone_number : Text → User → Bool
has_phone_number phone_number user = text_eq user.phone_number phone_number

-- NULL = $1 is not true.
abbrev pub has_email : Text → User → Bool
has_email email user = elim user.email [ none ↦ false | some e ↦ text_eq e email ]

abbrev pub or_user_not_found : Option User → Result User
or_user_not_found none = err (repo RepoError.user_not_found)
or_user_not_found (some user) = ok user

-- The columns of the INSERT; the others have their defaults.
abbrev pub user_row : Text → Time → User → User
user_row id created user = record user {
  id = id;
  email = none;
  last_login_at = none;
  created_at = created;
}

-- The primary key and the unique phone number of the table.
abbrev pub user_conflicts : User → List User → Bool
user_conflicts row users =
    any (has_id row.id) users || any (has_phone_number row.phone_number) users

unfoldable pub insert_user : Env → User → ℕ → Db → Result User × Db
insert_user env user n db =
    let row = user_row (env.gen_random_uuid n) (env.db_clock n) user in
    if user_conflicts row db.users
    then (err unique_violation, db)
    else (ok row, record db { users = db.users ++ row ∷ [] })

abbrev pub with_email : Text → User → User
with_email email user = record user { email = some email }

-- Another row has the email.
abbrev pub email_taken : Text → Text → User → Bool
email_taken id email user = has_email email user && not (has_id id user)

-- No row has the id, another row has the email, or the rows are updated.
abbrev pub email_outcome : Text → Text → Db → List User → Option User → Result User × Db
email_outcome user_id email db users none = (err (repo RepoError.user_not_found), db)
email_outcome user_id email db users (some user) =
    if any (email_taken user_id email) db.users
    then (err unique_violation, db)
    else (ok user, record db { users = users })

module _ (env : Env) where
  unfoldable pub create : User → Action User
  unfolding statement insert_user
  create user = statement env (insert_user env user)

  unfoldable pub find_by_id : Text → Action User
  unfolding query
  find_by_id id = query env λ db. or_user_not_found (find (has_id id) db.users)

  unfoldable pub find_by_email : Text → Action User
  unfolding query
  find_by_email email = query env λ db. or_user_not_found (find (has_email email) db.users)

  unfoldable pub find_by_phone_number : Text → Action User
  unfolding query
  find_by_phone_number phone_number =
      query env λ db. or_user_not_found (find (has_phone_number phone_number) db.users)

  unfoldable pub update_email : Text → Text → Action User
  unfolding statement
  update_email user_id email = statement env λ n db.
      let users = update (has_id user_id) (with_email email) db.users in
      email_outcome user_id email db users (find (has_id user_id) users)
