-- ===== src/Repo/MobileDevices.antt =====
-- internal/repo/postgres/mobile_device_repo.go.
pub mod Upserts
use datn_backend.Prelude.{
  ℕ, ◌+◌, Bool, true, false, not, ◌&&◌, Option, none, some, List, [], ◌∷◌, ◌++◌, if◌then◌else◌,
}
use datn_backend.Prelude.Tables.{find, any, update, delete, select, order_by}
use datn_backend.Text.{Text, text_eq}
use datn_backend.Domain.Pairing.{MobileDevice}
use datn_backend.Errors.{Error, unique_violation, db_failed, Result, ok, err}
use datn_backend.World.{World, Db, Env}
use datn_backend.Action.{Action, pure, query, statement, transaction, ◌>>=◌, ◌>>◌}
use datn_backend.Repo.Users

abbrev pub has_token : Text → MobileDevice → Bool
has_token fcm_token device = text_eq device.fcm_token fcm_token

-- WHERE user_id = $1
abbrev pub is_of_user : Text → MobileDevice → Bool
is_of_user user_id device = text_eq device.user_id user_id

abbrev pub has_id : Text → MobileDevice → Bool
has_id id device = text_eq device.id id

-- WHERE user_id = $1 AND platform = $2 AND fcm_token <> $3
abbrev pub is_stale : MobileDevice → MobileDevice → Bool
is_stale saved device =
    text_eq device.user_id saved.user_id
    && text_eq device.platform saved.platform
    && not (has_token saved.fcm_token device)

-- DO UPDATE SET user_id = EXCLUDED.user_id, platform = EXCLUDED.platform
abbrev pub moved_to : MobileDevice → MobileDevice → MobileDevice
moved_to device row = record row { user_id = device.user_id; platform = device.platform }

-- The row with the token is changed, or a row with a fresh identifier is added.
unfoldable pub upsert_row :
    Text → MobileDevice → Db → Option MobileDevice → Result MobileDevice × Db
upsert_row id device db (some row) = (
  ok (moved_to device row),
  record db {
    mobile_devices = update (has_token device.fcm_token) (moved_to device) db.mobile_devices;
  },
)
upsert_row id device db none =
    if any (has_id id) db.mobile_devices then (err unique_violation, db) else (
      ok (record device { id = id }),
      record db { mobile_devices = db.mobile_devices ++ record device { id = id } ∷ [] },
    )

-- A device of no user violates the foreign key.
unfoldable pub insert_or_update : Env → MobileDevice → ℕ → Db → Result MobileDevice × Db
unfolding upsert_row
insert_or_update env device n db =
    if any (Users.has_id device.user_id) db.users
    then upsert_row (env.gen_random_uuid n) device db
        (find (has_token device.fcm_token) db.mobile_devices)
    else (err db_failed, db)

module _ (env : Env) where
  -- The DELETE.
  unfoldable pub clean_up : MobileDevice → Action (Unit {0})
  unfolding statement
  clean_up saved =
      statement env
        λ n db. (ok tt, record db { mobile_devices = delete (is_stale saved) db.mobile_devices })

  unfoldable pub upsert : MobileDevice → Action MobileDevice
  unfolding statement clean_up transaction
  upsert device =
      transaction env
        (do saved ← statement env (insert_or_update env device); clean_up saved; pure (ok saved))

  unfoldable pub save : MobileDevice → Action (Unit {0})
  unfolding upsert
  save device = do upsert device; pure tt

  -- ORDER BY platform ASC
  unfoldable pub find_by_user_id : Text → Action (List MobileDevice)
  unfolding query
  find_by_user_id user_id = query env λ db. ok (
      order_by (λ a b. env.collate a.platform b.platform)
        (select (is_of_user user_id) db.mobile_devices))

  unfoldable pub delete_by_fcm_token : Text → Action (Unit {0})
  unfolding statement
  delete_by_fcm_token fcm_token =
      statement env λ n db.
        (ok tt, record db { mobile_devices = delete (has_token fcm_token) db.mobile_devices })
