-- ===== src/Pairing/Status/Lookup.antt =====
-- Looking a session up leaves the agents as they are.
use datn_backend.Prelude.{◌≡◌, Option, none, some, List}
use datn_backend.Prelude.Tables.{find}
use datn_backend.Text.{Text}
use datn_backend.Domain.Pairing.{PairingSession, PcAgent}
use datn_backend.Errors.{repo, RepoError, Result, ok, err}
use datn_backend.World.{Db, Env}
use datn_backend.Action.Keeps.{Keeps, Keeps-statement, Keeps-raise, keeps_rules}
use datn_backend.Repo.PairingSessions
use datn_backend.Pairing.Status.{or_mismatch, or_reload, current_session, expire_if_due}

module _ (env : Env) where
  abbrev pub AgentsAre : List PcAgent → Db → Type 0
  AgentsAre agents db = db.pc_agents ≡ agents

  module _ (agents : List PcAgent) where
    expire-Keeps : (id : Text) → Keeps (AgentsAre agents) (PairingSessions.expire env id)
    unfolding PairingSessions.expire PairingSessions.update_session
    expire-Keeps id =
        Keeps-statement env _
          λ n db h. kept db (find (PairingSessions.is_pending_id id) db.pairing_sessions) h
      where
        kept :
            (db : Db) (found : Option PairingSession)
            → AgentsAre agents db
            → AgentsAre agents
                (PairingSessions.update_sessions
                  (PairingSessions.is_pending_id id)
                  PairingSessions.as_expired
                  db
                  found).1
        kept db none h = h
        kept db (some session) h = h

    or_mismatch-Keeps :
        (code : Text) (r : Result PairingSession)
        → Keeps (AgentsAre agents) (or_mismatch env code r)
    unfolding or_mismatch PairingSessions.exists_by_device_code
    or_mismatch-Keeps code (ok session) = search keeps_rules
    or_mismatch-Keeps code (err (repo RepoError.pairing_session_not_found)) =
        search keeps_rules depth 20
    or_mismatch-Keeps code (err e) = Keeps-raise e

    or_reload-Keeps :
        (id code : Text) (r : Result PairingSession)
        → Keeps (AgentsAre agents) (or_reload env id code r)
    unfolding or_reload PairingSessions.find_by_id_and_device_code
    or_reload-Keeps id code (ok session) = search keeps_rules
    or_reload-Keeps id code (err (repo RepoError.pairing_session_not_found)) =
        search keeps_rules depth 20
    or_reload-Keeps id code (err e) = Keeps-raise e

    expire_if_due-Keeps :
        (id code : Text) (session : PairingSession)
        → Keeps (AgentsAre agents) (expire_if_due env id code session)
    unfolding expire_if_due
    expire_if_due-Keeps id code session =
        search (keeps_rules, or_reload-Keeps, expire-Keeps) depth 20

    pub current_session-Keeps :
        (id code : Text) → Keeps (AgentsAre agents) (current_session env id code)
    unfolding current_session
    current_session-Keeps id code =
        search (keeps_rules, or_mismatch-Keeps, expire_if_due-Keeps) depth 20
