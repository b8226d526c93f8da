-- ===== src/Pairing/Requests/Sessions.antt =====
-- A pairing session that is no longer pending is never pending again.
use datn_backend.Prelude.{
  ℕ, ◌≡◌, refl, inl, inr, Bool, false, Option, none, some, List, [], ◌∷◌, ◌++◌, if◌then◌else◌,
  Bool-cases, All,
}
use datn_backend.Prelude.Tables.{find, any, update, find-update, find-append_some}
use datn_backend.Text.{Text}
use datn_backend.Domain.Pairing.{PcAgent, PairingSession, is_pending}
use datn_backend.Errors.{err}
use datn_backend.World.{World, Db, Env}
use datn_backend.Action.Keeps.{Keeps, Keeps-statement, if-Keeps, keeps_rules}
use datn_backend.Repo.Users
use datn_backend.Repo.PcAgents
use datn_backend.Repo.PcAgents.{
  update_agents, insert_agent, lacks_secret, with_secret_hash, verified, with_protection,
  is_of_agent, without_agent,
}
use datn_backend.Repo.PairingSessions
use datn_backend.Repo.PairingSessions.{
  has_id, has_code, as_expired, as_confirmed, update_sessions, confirm,
}
use datn_backend.Pairing.Agents.{delete_pc_agent}
use datn_backend.Pairing.Requests.{Request, serve_all}
use datn_backend.Pairing.Requests.Invariants.{Rules, serve_all-Keeps}

-- The session of the code is stored and not pending.
pub record IsSettled (code : Text) (sessions : List PairingSession) : Type 0 where
  pub session : PairingSession
  pub stored : find (has_code code) sessions ≡ some session
  pub settled : is_pending session.status ≡ false

module _ (code : Text) (env : Env) where
  abbrev P : Db → Type 0
  P db = IsSettled code db.pairing_sessions

  append-IsSettled :
      (row : PairingSession) (sessions : List PairingSession)
      → IsSettled code sessions
      → IsSettled code (sessions ++ row ∷ [])
  append-IsSettled row sessions h = record {
    session = h.session;
    stored = find-append_some (has_code code) sessions (row ∷ []) h.session h.stored;
    settled = h.settled;
  }

  update-IsSettled :
      (p : PairingSession → Bool) (f : PairingSession → PairingSession)
      (sessions : List PairingSession)
      → ((x : PairingSession) → has_code code (f x) ≡ has_code code x)
      → ((x : PairingSession) → is_pending x.status ≡ false → is_pending (f x).status ≡ false)
      → IsSettled code sessions
      → IsSettled code (update p f sessions)
  update-IsSettled p f sessions same keep h = record {
    session = if p h.session then f h.session else h.session;
    stored = find-update (has_code code) p f same sessions h.session h.stored;
    settled = elim (Bool-cases (p h.session)) [
      | inl e ↦ rw e (keep h.session h.settled)
      | inr e ↦ rw e h.settled
    ];
  }

  update_session-Keeps :
      (p : PairingSession → Bool) (f : PairingSession → PairingSession)
      → ((x : PairingSession) → has_code code (f x) ≡ has_code code x)
      → ((x : PairingSession) → is_pending x.status ≡ false → is_pending (f x).status ≡ false)
      → Keeps P (PairingSessions.update_session env p f)
  unfolding PairingSessions.update_session
  update_session-Keeps p f same keep =
      Keeps-statement env _ λ n db h. kept db (find p db.pairing_sessions) h
    where
      kept : (db : Db) (found : Option PairingSession) → P db → P (update_sessions p f db found).1
      kept db none h = h
      kept db (some session) h = update-IsSettled p f db.pairing_sessions same keep h

  update_where-Keeps :
      (p : PcAgent → Bool) (f : PcAgent → PcAgent) → Keeps P (PcAgents.update_where env p f)
  unfolding PcAgents.update_where
  update_where-Keeps p f = Keeps-statement env _ λ n db h. kept db (find p db.pc_agents) h
    where
      kept : (db : Db) (found : Option PcAgent) → P db → P (update_agents p f db found).1
      kept db none h = h
      kept db (some agent) h = h

  insert_agent-P : (row : PcAgent) (db : Db) → P db → P (insert_agent row db).1
  unfolding insert_agent
  insert_agent-P row db h =
      if-Keeps P (any (PcAgents.has_id row.id) db.pc_agents) (err _, db) _ h
        (if-Keeps P (any (Users.has_id row.user_id) db.users) _ (err _, db) h h)

  session_insertion-P :
      (session : PairingSession) (n : ℕ) (db : Db)
      → P db
      → P (PairingSessions.insert_session env session n db).1
  unfolding PairingSessions.insert_session
  session_insertion-P session n db h =
      if-Keeps P _ (err _, db) _ h (append-IsSettled _ db.pairing_sessions h)

  session-Rules : Rules P env
  session-Rules = record {
    agent_insertion = insert_agent-P;
    session_insertion = session_insertion-P;
    expiry = λ p. update_session-Keeps p as_expired (λ x. refl) (λ x h. refl);
    confirmation = λ p user_id agent_id at.
        update_session-Keeps p (as_confirmed user_id agent_id at) (λ x. refl) (λ x h. refl);
    secret =
        λ agent_id new_hash. update_where-Keeps (lacks_secret agent_id) (with_secret_hash new_hash);
    verification = λ p at. update_where-Keeps p (verified at);
    protection = λ p status. update_where-Keeps p (with_protection status);
  }

  delete-Keeps : (id user_id : Text) → Keeps P (PcAgents.delete_by_id_and_user_id env id user_id)
  unfolding PcAgents.delete_by_id_and_user_id
  delete-Keeps id user_id = Keeps-statement env _ λ n db h.
      if-Keeps P _ _ (err _, db)
        (update-IsSettled (is_of_agent id) without_agent db.pairing_sessions (λ x. refl) (λ x k. k)
          h)
        h

  delete_pc_agent-Keeps : (user_id id : Text) → Keeps P (delete_pc_agent env user_id id)
  unfolding delete_pc_agent
  delete_pc_agent-Keeps user_id id = search (keeps_rules, delete-Keeps) depth 20

  -- Every sequence of requests leaves the session settled.
  pub serve_all-IsSettled : (w : World) (rs : List Request) → P w.db → P (serve_all env w rs).db
  serve_all-IsSettled w rs h =
      serve_all-Keeps env session-Rules (λ r. Unit {0})
        (λ user_id id t. delete_pc_agent-Keeps user_id id) w rs (all_units rs) h
    where
      all_units : (rs : List Request) → All (λ r. Unit {0}) rs
      all_units [] = tt
      all_units (r ∷ rs) = (tt, all_units rs)
