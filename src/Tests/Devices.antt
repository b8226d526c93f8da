-- ===== src/Tests/Devices.antt =====
-- Confirming a code twice, and the tokens of a mobile device, at concrete inputs.
use datn_backend.Repo.MobileDevices.{insert_or_update, has_token, upsert}
use datn_backend.Prelude.Tables.{any, find}
use datn_backend.Repo.PairingSessions.{adopt, confirm_locked, confirm}
use datn_backend.Prelude.{◌*◌, ◌≡◌, ◌≢◌, refl, some, List, [], ◌∷◌, All}
use datn_backend.Text.{utf8, trim_space, to_upper}
use datn_backend.Domain.{second}
use datn_backend.Domain.Pairing.{PcAgent, MobileDevice}
use datn_backend.Errors.{db_failed, ok, err}
use datn_backend.World.{World, empty_db}
use datn_backend.Repo.MobileDevices.Upserts.{HasSameToken, upsert_ok, upsert_err}
use datn_backend.Pairing.Start.{confirm_pairing}
use datn_backend.Pairing.Requests.{Request, serve_all}
use datn_backend.Pairing.Confirmations.{normal_code, confirm_pairing_once}
use datn_backend.Tests.Environment.{env, empty_world}
use datn_backend.Tests.Auth.{user}
use datn_backend.Tests.Pairing.{session, agent}

abbrev waiting : World
waiting = record {
  db = record empty_db {
    users = record user { id = utf8 "u1" } ∷ [];
    pairing_sessions = session ∷ [];
  };
  steps = 20;
}

abbrev paired_agent : PcAgent
paired_agent = record agent { user_id = utf8 "u1"; created_at = 24 * second }

confirms : (confirm_pairing env (utf8 "u1") (utf8 "llllll") waiting).0 ≡ ok paired_agent
unfolding confirm_pairing trim_space to_upper confirm find confirm_locked adopt any
confirms = refl

same_code : normal_code env (utf8 " LLLLLL") ≡ normal_code env (utf8 "llllll")
unfolding trim_space to_upper
same_code = refl

-- Another user tries after the agent was deleted.
abbrev requests : List Request
requests = Request.delete_pc_agent (utf8 "u1") paired_agent.id ∷ []

confirm_pairing_once_example :
    (confirm_pairing env
      (utf8 "u2")
      (utf8 " LLLLLL")
      (serve_all env (confirm_pairing env (utf8 "u1") (utf8 "llllll") waiting).1 requests)).0
    ≢ ok paired_agent
confirm_pairing_once_example =
    confirm_pairing_once env (utf8 "u1") (utf8 "llllll") (utf8 "u2") (utf8 " LLLLLL") waiting
      paired_agent paired_agent requests confirms same_code

abbrev old : MobileDevice
old = record {
  id = utf8 "m1";
  user_id = utf8 "u1";
  fcm_token = utf8 "t1";
  platform = utf8 "android";
}

abbrev device : MobileDevice
device = record old { id = []; fcm_token = utf8 "t2" }

abbrev saved : MobileDevice
saved = record device { id = 21 ∷ [] }

abbrev with_old : World
with_old = record {
  db = record empty_db { users = record user { id = utf8 "u1" } ∷ []; mobile_devices = old ∷ [] };
  steps = 20;
}

saves : (upsert env device with_old).0 ≡ ok saved
unfolding upsert insert_or_update any find
saves = refl

upsert_ok_example :
    (saved.user_id ≡ device.user_id)
    × (saved.fcm_token ≡ device.fcm_token)
    × (saved.platform ≡ device.platform)
    × (find (has_token device.fcm_token) (upsert env device with_old).1.mobile_devices ≡ some saved)
    × All (HasSameToken saved) (upsert env device with_old).1.mobile_devices
upsert_ok_example = upsert_ok env device with_old saved saves

-- The user is gone.
fails : (upsert env device empty_world).0 ≡ err db_failed
unfolding upsert insert_or_update any
fails = refl

upsert_err_example : (upsert env device empty_world).1.db ≡ empty_world.db
upsert_err_example = upsert_err env device empty_world db_failed fails
