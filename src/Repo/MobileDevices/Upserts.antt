-- ===== src/Repo/MobileDevices/Upserts.antt =====
-- After Upsert a user has one token for a platform.
use datn_backend.Prelude.{
  ℕ, ◌+◌, ◌≡◌, refl, sym, subst, ◌∙◌, inl, inr, true, false, some, List, [], ◌∷◌, arith, Bool-cases,
  Option-cases, All,
}
use datn_backend.Prelude.Tables.{
  find, any, delete, find_sound, find-update, find-append_none, find-delete, All-deleted, All-map,
}
use datn_backend.Text.{Text, text_eq_iff, text_eq_refl}
use datn_backend.Domain.Pairing.{MobileDevice}
use datn_backend.Errors.{Error, ok, err}
use datn_backend.World.{World, Db, Env}
use datn_backend.Repo.Users
use datn_backend.Repo.MobileDevices.{
  has_token, has_id, is_stale, moved_to, upsert_row, insert_or_update, upsert,
}

-- A device of the same user and platform has the token.
abbrev pub HasSameToken : MobileDevice → MobileDevice → Type 0
HasSameToken saved device =
    device.user_id ≡ saved.user_id
    → device.platform ≡ saved.platform
    → device.fcm_token ≡ saved.fcm_token

-- The row that the first statement leaves for the token.
record Stored (device saved : MobileDevice) (devices : List MobileDevice) : Type 0 where
  owner : saved.user_id ≡ device.user_id
  token : saved.fcm_token ≡ device.fcm_token
  platform : saved.platform ≡ device.platform
  found : find (has_token device.fcm_token) devices ≡ some saved

upsert_row_ok :
    (id : Text) (device saved : MobileDevice) (db : Db)
    → (upsert_row id device db (find (has_token device.fcm_token) db.mobile_devices)).0 ≡ ok saved
    → Stored device saved
        (upsert_row id device db
          (find (has_token device.fcm_token) db.mobile_devices)).1.mobile_devices
unfolding upsert_row
upsert_row_ok id device saved db h =
    elim (Option-cases (find (has_token device.fcm_token) db.mobile_devices)) [
      | inr (row, e) ↦
          (let same : moved_to device row ≡ saved = ground arith in
            let q = has_token device.fcm_token in
            let sound : q row ≡ true = find_sound q db.mobile_devices row e in
            let kept = find-update q q (moved_to device) (λ x. refl) db.mobile_devices row e in
            rw (e, ← same)
              (record {
                owner = refl;
                token = (text_eq_iff row.fcm_token device.fcm_token).0 sound;
                platform = refl;
                found = rw sound at kept;
              }))
      | inl e ↦ elim (Bool-cases (any (has_id id) db.mobile_devices)) [
        | inl f ↦ absurd (ground arith)
        | inr f ↦
            (let new : MobileDevice = record device { id = id } in
              let same : new ≡ saved = ground arith in
              let q = has_token device.fcm_token in
              let alone : find q (new ∷ []) ≡ some new =
                unfold find in rw (text_eq_refl device.fcm_token) refl in
              rw (e, f, ← same)
                (record {
                  owner = refl;
                  token = refl;
                  platform = refl;
                  found = find-append_none q db.mobile_devices (new ∷ []) e ∙ alone;
                }))
      ]
    ]

module _ (env : Env) (device : MobileDevice) (w : World) where
  upsert_ok_db :
      (saved : MobileDevice)
      → (upsert env device w).0 ≡ ok saved
      → ((insert_or_update env device (w.steps + 1) w.db).0 ≡ ok saved)
        × ((upsert env device w).1.mobile_devices
            ≡ delete
                (is_stale saved)
                (insert_or_update env device (w.steps + 1) w.db).1.mobile_devices)
  unfolding upsert
  upsert_ok_db saved h = (ground arith, ground arith)

  insert_ok :
      (saved : MobileDevice) (n : ℕ) (db : Db)
      → (insert_or_update env device n db).0 ≡ ok saved
      → Stored device saved (insert_or_update env device n db).1.mobile_devices
  unfolding insert_or_update
  insert_ok saved n db h = elim (Bool-cases (any (Users.has_id device.user_id) db.users)) [
    | inl e ↦ rw e (upsert_row_ok (env.gen_random_uuid n) device saved db (rw e at h))
    | inr e ↦ absurd (ground arith)
  ]

  same_token : (saved x : MobileDevice) → is_stale saved x ≡ false → HasSameToken saved x
  same_token saved x fresh owner platform = ground (
    arith,
    text_eq_iff x.user_id saved.user_id,
    text_eq_iff x.platform saved.platform,
    text_eq_iff x.fcm_token saved.fcm_token,
  )

  stays : (saved x : MobileDevice) → has_token saved.fcm_token x ≡ true → is_stale saved x ≡ false
  stays saved x h = ground arith

  -- An Upsert that succeeds leaves the device under its token with the user and the platform of the
  -- call, and no other device of that user and platform with another token.
  pub upsert_ok :
      (saved : MobileDevice)
      → (upsert env device w).0 ≡ ok saved
      → (saved.user_id ≡ device.user_id)
        × (saved.fcm_token ≡ device.fcm_token)
        × (saved.platform ≡ device.platform)
        × (find (has_token device.fcm_token) (upsert env device w).1.mobile_devices ≡ some saved)
        × All (HasSameToken saved) (upsert env device w).1.mobile_devices
  upsert_ok saved h =
      let (done, after) = upsert_ok_db saved h in
      let s = insert_ok saved (w.steps + 1) w.db done in
      let rows = (insert_or_update env device (w.steps + 1) w.db).1.mobile_devices in
      let kept = find-delete (has_token saved.fcm_token) (is_stale saved) (stays saved) rows in
      (
        s.owner,
        s.token,
        s.platform,
        rw after (
            subst (λ t. find (has_token t) (delete (is_stale saved) rows) ≡ some saved) s.token
              (kept ∙ subst (λ t. find (has_token t) rows ≡ some saved) (sym s.token) s.found)),
        rw after (
            All-map (λ x. is_stale saved x ≡ false) (HasSameToken saved) (same_token saved) _
              (All-deleted (is_stale saved) rows)),
      )

  -- An Upsert that fails writes nothing.
  pub upsert_err : (e : Error) → (upsert env device w).0 ≡ err e → (upsert env device w).1.db ≡ w.db
  unfolding upsert
  upsert_err e h = ground arith
