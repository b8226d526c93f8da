-- ===== src/Pairing/Requests/Invariants.antt =====
-- What every request keeps, given what the statements keep.
use datn_backend.Prelude.{ℕ, Bool, Option, none, some, List, [], ◌∷◌, All, zero, suc}
use datn_backend.Text.{Text}
use datn_backend.Domain.{Time}
use datn_backend.Domain.Pairing.{PcAgent, PairingSession, PairingStatus, ProtectionStatus}
use datn_backend.Errors.{Result, ok, err, repo, RepoError}
use datn_backend.World.{World, Db, Env}
use datn_backend.Action.{Action}
use datn_backend.Action.Keeps.{
  Keeps, Keeps-statement, Keeps-raise, keeps_rules, Keeps-bind, Keeps-if, Keeps-inspect,
}
use datn_backend.Repo.PcAgents
use datn_backend.Repo.PcAgents.{
  has_id, lacks_secret, update_agents, insert_agent, with_secret_hash, with_protection, verified,
}
use datn_backend.Repo.PairingSessions
use datn_backend.Repo.PairingSessions.{update_sessions}
use datn_backend.Pairing.Codes
use datn_backend.Pairing.Codes.Draws.{generate_device_code-Keeps}
use datn_backend.Pairing.Start
use datn_backend.Pairing.Status
use datn_backend.Pairing.Agents
use datn_backend.Pairing.Requests.{Request, serve, serve_all}

-- The statements that write, other than the deletion of an agent.
pub record Rules (P : Db → Type 0) (env : Env) : Type 0 where
  pub agent_insertion : (row : PcAgent) (db : Db) → P db → P (insert_agent row db).1
  pub session_insertion :
      (session : PairingSession) (n : ℕ) (db : Db)
      → P db
      → P (PairingSessions.insert_session env session n db).1
  pub expiry :
      (p : PairingSession → Bool)
      → Keeps P (PairingSessions.update_session env p PairingSessions.as_expired)
  pub confirmation :
      (p : PairingSession → Bool) (user_id agent_id : Text) (at : Time)
      → Keeps P
          (PairingSessions.update_session env p (PairingSessions.as_confirmed user_id agent_id at))
  pub secret :
      (id secret_hash : Text)
      → Keeps P (PcAgents.update_where env (lacks_secret id) (with_secret_hash secret_hash))
  pub verification :
      (p : PcAgent → Bool) (at : Time) → Keeps P (PcAgents.update_where env p (verified at))
  pub protection :
      (p : PcAgent → Bool) (status : ProtectionStatus)
      → Keeps P (PcAgents.update_where env p (with_protection status))

module _ {P : Db → Type 0} (env : Env) (rules : Rules P env) (Allowed : Request → Type 0)
    (removal : (user_id id : Text)
      → Allowed (Request.delete_pc_agent user_id id)
      → Keeps P (Agents.delete_pc_agent env user_id id)) where
  create-Keeps : (session : PairingSession) → Keeps P (PairingSessions.create env session)
  unfolding PairingSessions.create
  create-Keeps session = record {
    at = λ w h.
        (Keeps-statement env (PairingSessions.insert_session env session)
            (rules.session_insertion session)).at
          w h;
  }

  adopt-Keeps :
      (user_id : Text) (at : Time) (session : PairingSession)
      → Keeps P (PairingSessions.adopt env user_id at session)
  unfolding PairingSessions.adopt
  adopt-Keeps user_id at session =
      search (keeps_rules, rules.confirmation, Keeps-statement, rules.agent_insertion) depth 20

  reject_expired-Keeps :
      (session : PairingSession) → Keeps P (PairingSessions.reject_expired env session)
  unfolding PairingSessions.reject_expired
  reject_expired-Keeps session = search (keeps_rules, rules.expiry) depth 20

  confirm_locked-Keeps :
      (user_id : Text) (at : Time) (session : PairingSession)
      → Keeps P (PairingSessions.confirm_locked env user_id at session)
  unfolding PairingSessions.confirm_locked
  confirm_locked-Keeps user_id at session =
      search (keeps_rules, adopt-Keeps, reject_expired-Keeps) depth 20

  confirm-Keeps :
      (code user_id : Text) (at : Time) → Keeps P (PairingSessions.confirm env code user_id at)
  unfolding PairingSessions.confirm PairingSessions.find_by_device_code
  confirm-Keeps code user_id at = search (keeps_rules, confirm_locked-Keeps) depth 20

  store_code-Keeps :
      (device_name os_type code : Text) → Keeps P (Start.store_code env device_name os_type code)
  unfolding Start.store_code
  store_code-Keeps device_name os_type code = search (keeps_rules, create-Keeps) depth 20

  unless_code_exists-Keeps :
      (next : Action PairingSession) (r : Result PairingSession)
      → Keeps P next
      → Keeps P (Start.unless_code_exists next r)
  unless_code_exists-Keeps next (err (repo RepoError.pairing_session_code_exists)) k = k
  unless_code_exists-Keeps next r k = record { at = λ w h. h }

  exists-Keeps : (code : Text) → Keeps P (PairingSessions.exists_by_device_code env code)
  unfolding PairingSessions.exists_by_device_code
  exists-Keeps code = search keeps_rules

  try_code-Keeps :
      (next : Action PairingSession) (device_name os_type : Text)
      → Keeps P next
      → Keeps P (Start.try_code env next device_name os_type)
  unfolding Start.try_code
  try_code-Keeps next device_name os_type k =
      Keeps-bind _ _ (generate_device_code-Keeps env) λ code.
        Keeps-bind _ _ (exists-Keeps code) λ exists. Keeps-if exists next _ k (
          Keeps-inspect _ _ (store_code-Keeps device_name os_type code)
            λ r. unless_code_exists-Keeps next r k)

  try_codes-Keeps :
      (n : ℕ) (device_name os_type : Text) → Keeps P (Start.try_codes env n device_name os_type)
  unfolding Start.try_codes
  try_codes-Keeps zero device_name os_type = search keeps_rules
  try_codes-Keeps (suc n) device_name os_type =
      try_code-Keeps (Start.try_codes env n device_name os_type) device_name os_type
        (try_codes-Keeps n device_name os_type)

  pub start_pairing-Keeps :
      (device_name os_type : Text) → Keeps P (Start.start_pairing env device_name os_type)
  unfolding Start.start_pairing
  start_pairing-Keeps device_name os_type = search (keeps_rules, try_codes-Keeps) depth 20

  pub confirm_pairing-Keeps :
      (user_id code : Text) → Keeps P (Start.confirm_pairing env user_id code)
  unfolding Start.confirm_pairing
  confirm_pairing-Keeps user_id code = search (keeps_rules, confirm-Keeps) depth 20

  unless_set-Keeps :
      (agent_id : Text) (r : Result PcAgent) → Keeps P (PcAgents.unless_set env agent_id r)
  unfolding PcAgents.unless_set PcAgents.find_by_id
  unless_set-Keeps agent_id (ok agent) = search keeps_rules
  unless_set-Keeps agent_id (err (repo RepoError.pc_agent_not_found)) = search keeps_rules depth 20
  unless_set-Keeps agent_id (err e) = Keeps-raise e

  set_hash-Keeps :
      (agent_id new_hash : Text)
      → Keeps P (PcAgents.set_agent_secret_hash_if_empty env agent_id new_hash)
  unfolding PcAgents.set_agent_secret_hash_if_empty
  set_hash-Keeps agent_id new_hash = search (keeps_rules, unless_set-Keeps, rules.secret) depth 20

  find_agent-Keeps : (agent_id : Text) → Keeps P (PcAgents.find_by_id env agent_id)
  unfolding PcAgents.find_by_id
  find_agent-Keeps agent_id = search keeps_rules

  or_mismatch-Keeps :
      (code : Text) (r : Result PairingSession) → Keeps P (Status.or_mismatch env code r)
  unfolding Status.or_mismatch PairingSessions.exists_by_device_code
  or_mismatch-Keeps code (ok session) = search keeps_rules
  or_mismatch-Keeps code (err (repo RepoError.pairing_session_not_found)) =
      search keeps_rules depth 20
  or_mismatch-Keeps code (err e) = Keeps-raise e

  or_reload-Keeps :
      (id code : Text) (r : Result PairingSession) → Keeps P (Status.or_reload env id code r)
  unfolding Status.or_reload PairingSessions.find_by_id_and_device_code
  or_reload-Keeps id code (ok session) = search keeps_rules
  or_reload-Keeps id code (err (repo RepoError.pairing_session_not_found)) =
      search keeps_rules depth 20
  or_reload-Keeps id code (err e) = Keeps-raise e

  expire_if_due-Keeps :
      (id code : Text) (session : PairingSession)
      → Keeps P (Status.expire_if_due env id code session)
  unfolding Status.expire_if_due PairingSessions.expire
  expire_if_due-Keeps id code session = search (keeps_rules, or_reload-Keeps, rules.expiry) depth 20

  current_session-Keeps : (id code : Text) → Keeps P (Status.current_session env id code)
  unfolding Status.current_session
  current_session-Keeps id code =
      search (keeps_rules, or_mismatch-Keeps, expire_if_due-Keeps) depth 20

  issue_secret-Keeps :
      (result : Status.PairingStatusResult) (agent : PcAgent)
      → Keeps P (Status.issue_secret env result agent)
  unfolding Status.issue_secret Codes.generate_agent_secret Codes.hash_agent_secret
  issue_secret-Keeps result agent = search (keeps_rules, set_hash-Keeps) depth 20

  credential-Keeps :
      (status : PairingStatus) (paired : Option Text)
      → Keeps P (Status.credential env status paired)
  unfolding Status.credential
  credential-Keeps status none = search keeps_rules
  credential-Keeps status (some agent_id) = search (keeps_rules, issue_secret-Keeps) depth 20

  pub get_pairing_status-Keeps :
      (session_id code : Text) → Keeps P (Status.get_pairing_status env session_id code)
  unfolding Status.get_pairing_status
  get_pairing_status-Keeps session_id code =
      search (keeps_rules, current_session-Keeps, credential-Keeps) depth 20

  authenticate-Keeps : (agent_id secret : Text) → Keeps P (Agents.authenticate env agent_id secret)
  unfolding Agents.authenticate
  authenticate-Keeps agent_id secret = search keeps_rules depth 20

  mark_verified-Keeps :
      (agent_id : Text) (at : Time) → Keeps P (PcAgents.mark_verified env agent_id at)
  unfolding PcAgents.mark_verified
  mark_verified-Keeps agent_id at = rules.verification (has_id agent_id) at

  pub verify_pc_agent-Keeps :
      (agent_id secret : Text) → Keeps P (Agents.verify_pc_agent env agent_id secret)
  unfolding Agents.verify_pc_agent
  verify_pc_agent-Keeps agent_id secret =
      search (keeps_rules, authenticate-Keeps, mark_verified-Keeps) depth 20

  pub own_protection-Keeps :
      (agent_id secret : Text) (on : Bool)
      → Keeps P (Agents.update_pc_agent_own_protection env agent_id secret on)
  unfolding Agents.update_pc_agent_own_protection PcAgents.update_protection_status_by_id
  own_protection-Keeps agent_id secret on =
      search (keeps_rules, authenticate-Keeps, rules.protection, mark_verified-Keeps) depth 20

  pub protection-Keeps :
      (user_id agent_id : Text) (on : Bool)
      → Keeps P (Agents.update_pc_agent_protection env user_id agent_id on)
  unfolding Agents.update_pc_agent_protection PcAgents.update_protection_status_by_id_and_user_id
  protection-Keeps user_id agent_id on = search (keeps_rules, rules.protection) depth 20

  serve-Keeps : (w : World) (r : Request) → Allowed r → P w.db → P (serve env w r).db
  unfolding serve
  serve-Keeps w (Request.start_pairing device_name os_type) t =
      (start_pairing-Keeps device_name os_type).at w
  serve-Keeps w (Request.confirm_pairing user_id code) t = (confirm_pairing-Keeps user_id code).at w
  serve-Keeps w (Request.get_pairing_status session_id code) t =
      (get_pairing_status-Keeps session_id code).at w
  serve-Keeps w (Request.verify_pc_agent agent_id secret) t =
      (verify_pc_agent-Keeps agent_id secret).at w
  serve-Keeps w (Request.delete_pc_agent user_id agent_id) t = (removal user_id agent_id t).at w
  serve-Keeps w (Request.update_pc_agent_own_protection agent_id secret on) t =
      (own_protection-Keeps agent_id secret on).at w
  serve-Keeps w (Request.update_pc_agent_protection user_id agent_id on) t =
      (protection-Keeps user_id agent_id on).at w

  pub serve_all-Keeps :
      (w : World) (rs : List Request) → All Allowed rs → P w.db → P (serve_all env w rs).db
  unfolding serve_all
  serve_all-Keeps w [] t h = h
  serve_all-Keeps w (r ∷ rs) t h = serve_all-Keeps (serve env w r) rs t.1 (serve-Keeps w r t.0 h)
