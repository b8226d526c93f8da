-- ===== src/Pairing/Ownership.antt =====
-- What the operations of a user leave of the agents of other users.
use datn_backend.Prelude.{
  ◌≡◌, refl, ap, ◌∙◌, inl, inr, Bool, true, Option, none, some, List, [], ◌∷◌, ◌++◌, arith,
  Bool-cases, if◌then◌else◌,
}
use datn_backend.Prelude.Tables.{any, find, update, delete, delete-congr, delete-delete}
use datn_backend.Text.{Text, trim_space, text_eq_refl}
use datn_backend.Domain.{Time}
use datn_backend.Domain.Pairing.{PairingSession, PcAgent, MobileDevice, ProtectionStatus}
use datn_backend.Errors.{err}
use datn_backend.World.{Db, Env}
use datn_backend.Action.{statement}
use datn_backend.Action.Keeps.{Keeps, Keeps-statement, if-Keeps, keeps_rules}
use datn_backend.Repo.Users
use datn_backend.Repo.PcAgents
use datn_backend.Repo.PcAgents.{is_of_user, is_owned, with_protection, update_agents}
use datn_backend.Repo.PairingSessions
use datn_backend.Repo.MobileDevices
use datn_backend.Auth.Requests.Statements as AuthStatements
use datn_backend.Pairing.Start.{confirm_pairing}
use datn_backend.Pairing.Agents.{delete_pc_agent, update_pc_agent_protection}
use datn_backend.Pairing.Devices.{register_mobile_device}

-- The agents of other users.
abbrev pub others : Text → List PcAgent → List PcAgent
others user_id agents = delete (is_of_user user_id) agents

-- A change of agents of the user.
others-update :
    (user_id : Text) (p : PcAgent → Bool) (f : PcAgent → PcAgent)
    → ((a : PcAgent) → p a ≡ true → is_of_user user_id a ≡ true)
    → ((a : PcAgent) → (f a).user_id ≡ a.user_id)
    → (agents : List PcAgent) → others user_id (update p f agents) ≡ others user_id agents
unfolding delete update
others-update user_id p f own keep [] = refl
others-update user_id p f own keep (a ∷ agents) = elim (Bool-cases (p a)) [
  | inl e ↦ rw (e, keep a, own a e) (others-update user_id p f own keep agents)
  | inr e ↦ rw e (
      ap (λ (rest : List PcAgent). if is_of_user user_id a then rest else a ∷ rest)
        (others-update user_id p f own keep agents))
]

others-delete :
    (user_id id : Text) (agents : List PcAgent)
    → others user_id (delete (is_owned id user_id) agents) ≡ others user_id agents
others-delete user_id id agents =
    delete-delete (is_of_user user_id) (is_owned id user_id) agents
    ∙ delete-congr _ (is_of_user user_id) (λ a. ground arith) agents

others-append :
    (user_id : Text) (row : PcAgent) (agents : List PcAgent)
    → is_of_user user_id row ≡ true
    → others user_id (agents ++ row ∷ []) ≡ others user_id agents
unfolding delete
others-append user_id row [] own = rw own refl
others-append user_id row (a ∷ agents) own =
    ap (λ (rest : List PcAgent). if is_of_user user_id a then rest else a ∷ rest)
      (others-append user_id row agents own)

-- The agents of users other than `user_id` are `agents`.
abbrev pub HasOthers : Text → List PcAgent → Db → Type 0
HasOthers user_id agents db = others user_id db.pc_agents ≡ agents

module _ (env : Env) (user_id : Text) (agents : List PcAgent) where
  abbrev P : Db → Type 0
  P = HasOthers user_id agents

  pub auth_rules : AuthStatements.Rules P
  auth_rules = record {
    user_rows = λ rows db h. h;
    otp_rows = λ rows db h. h;
    token_insertion = λ row db h. h;
    token_revocation = λ p at db h. h;
  }

  update_session-Keeps :
      (p : PairingSession → Bool) (f : PairingSession → PairingSession)
      → Keeps P (PairingSessions.update_session env p f)
  unfolding PairingSessions.update_session
  update_session-Keeps p f = Keeps-statement env _ λ n db h. kept db (find p db.pairing_sessions) h
    where
      kept :
          (db : Db) (found : Option PairingSession)
          → P db
          → P (PairingSessions.update_sessions p f db found).1
      kept db none h = h
      kept db (some session) h = h

  insert_own-P :
      (row : PcAgent) (db : Db)
      → is_of_user user_id row ≡ true
      → P db
      → P (PcAgents.insert_agent row db).1
  unfolding PcAgents.insert_agent
  insert_own-P row db own h =
      if-Keeps P (any (PcAgents.has_id row.id) db.pc_agents) (err _, db) _ h
        (if-Keeps P (any (Users.has_id row.user_id) db.users) _ (err _, db)
          (others-append user_id row db.pc_agents own ∙ h) h)

  insert_new-Keeps :
      (agent_id : Text) (session : PairingSession)
      → Keeps P (
          statement env (λ n db.
            PcAgents.insert_agent
              (PairingSessions.new_agent agent_id user_id (env.db_clock n) session)
              db))
  insert_new-Keeps agent_id session =
      Keeps-statement env _ λ n db h. insert_own-P _ db (text_eq_refl user_id) h

  adopt-Keeps :
      (at : Time) (session : PairingSession)
      → Keeps P (PairingSessions.adopt env user_id at session)
  unfolding PairingSessions.adopt
  adopt-Keeps at session = search (keeps_rules, insert_new-Keeps, update_session-Keeps) depth 20

  reject_expired-Keeps :
      (session : PairingSession) → Keeps P (PairingSessions.reject_expired env session)
  unfolding PairingSessions.reject_expired
  reject_expired-Keeps session = search (keeps_rules, update_session-Keeps) depth 20

  confirm_locked-Keeps :
      (at : Time) (session : PairingSession)
      → Keeps P (PairingSessions.confirm_locked env user_id at session)
  unfolding PairingSessions.confirm_locked
  confirm_locked-Keeps at session = search (keeps_rules, adopt-Keeps, reject_expired-Keeps) depth 20

  confirm-Keeps : (code : Text) (at : Time) → Keeps P (PairingSessions.confirm env code user_id at)
  unfolding PairingSessions.confirm PairingSessions.find_by_device_code
  confirm-Keeps code at = search (keeps_rules, confirm_locked-Keeps) depth 20

  delete-Keeps : (id : Text) → Keeps P (PcAgents.delete_by_id_and_user_id env id user_id)
  unfolding PcAgents.delete_by_id_and_user_id
  delete-Keeps id =
      Keeps-statement env _
        λ n db h. if-Keeps P _ _ (err _, db) (others-delete user_id id db.pc_agents ∙ h) h

  protect-Keeps :
      (id : Text) (status : ProtectionStatus)
      → Keeps P (PcAgents.update_protection_status_by_id_and_user_id env id user_id status)
  unfolding PcAgents.update_protection_status_by_id_and_user_id PcAgents.update_where
  protect-Keeps id status = Keeps-statement env _ λ n db h. kept db (find _ db.pc_agents) h
    where
      kept :
          (db : Db) (found : Option PcAgent)
          → P db
          → P (update_agents (is_owned id user_id) (with_protection status) db found).1
      kept db none h = h
      kept db (some agent) h =
          others-update user_id (is_owned id user_id) (with_protection status) (λ a e. ground arith)
            (λ a. refl) db.pc_agents
          ∙ h

  upsert_row-P :
      (id : Text) (device : MobileDevice) (db : Db) (o : Option MobileDevice)
      → P db
      → P (MobileDevices.upsert_row id device db o).1
  unfolding MobileDevices.upsert_row
  upsert_row-P id device db none h = if-Keeps P _ (err _, db) _ h h
  upsert_row-P id device db (some row) h = h

  insert_or_update-Keeps :
      (device : MobileDevice) → Keeps P (statement env (MobileDevices.insert_or_update env device))
  unfolding MobileDevices.insert_or_update
  insert_or_update-Keeps device = Keeps-statement env _ λ n db h.
      if-Keeps P (any (Users.has_id device.user_id) db.users) _ (err _, db)
        (upsert_row-P _ device db _ h) h

  clean_up-Keeps : (saved : MobileDevice) → Keeps P (MobileDevices.clean_up env saved)
  unfolding MobileDevices.clean_up
  clean_up-Keeps saved = Keeps-statement env _ (λ n db h. h)

  pub register_mobile_device-Keeps :
      (user_input fcm_token platform : Text)
      → Keeps P (register_mobile_device env user_input fcm_token platform)
  unfolding register_mobile_device MobileDevices.upsert
  register_mobile_device-Keeps user_input fcm_token platform =
      search (keeps_rules, insert_or_update-Keeps, clean_up-Keeps) depth 20

-- The use cases, of the subject as they trim it.
module _ (env : Env) (subject : Text) (agents : List PcAgent) where
  abbrev Q : Db → Type 0
  Q = HasOthers (trim_space subject) agents

  pub confirm_pairing-Keeps : (code : Text) → Keeps Q (confirm_pairing env subject code)
  unfolding confirm_pairing
  confirm_pairing-Keeps code =
      search (keeps_rules, confirm-Keeps env (trim_space subject) agents) depth 20

  pub delete_pc_agent-Keeps : (id : Text) → Keeps Q (delete_pc_agent env subject id)
  unfolding delete_pc_agent
  delete_pc_agent-Keeps id =
      search (keeps_rules, delete-Keeps env (trim_space subject) agents) depth 20

  pub protection-Keeps :
      (id : Text) (on : Bool) → Keeps Q (update_pc_agent_protection env subject id on)
  unfolding update_pc_agent_protection
  protection-Keeps id on =
      search (keeps_rules, protect-Keeps env (trim_space subject) agents) depth 20
