-- ===== src/Pairing/Requests/Secrets.antt =====
-- An agent that has a secret keeps it, and gets no other, until it is deleted.
use datn_backend.Prelude.{
  ℕ, ◌≡◌, refl, inl, inr, Bool, true, Option, none, some, List, [], ◌∷◌, ◌++◌, arith, if◌then◌else◌,
  Bool-cases, All,
}
use datn_backend.Prelude.Tables.{find, any, update, find-update, find-append_some}
use datn_backend.Text.{Text}
use datn_backend.Domain.Pairing.{PcAgent, PairingSession}
use datn_backend.Errors.{err}
use datn_backend.World.{World, Db, Env}
use datn_backend.Action.Keeps.{Keeps, Keeps-statement, if-Keeps}
use datn_backend.Repo.Users
use datn_backend.Repo.PcAgents
use datn_backend.Repo.PcAgents.{
  has_id, lacks_secret, update_agents, insert_agent, with_secret_hash, with_protection, verified,
}
use datn_backend.Repo.PairingSessions
use datn_backend.Repo.PairingSessions.{update_sessions}
use datn_backend.Pairing.Requests.Invariants.{Rules, serve_all-Keeps}
use datn_backend.Pairing.Requests.{Request, serve_all, IsNoDeletion}

-- The agent is stored with the hash of its secret.
pub record HasSecret (id hash : Text) (agents : List PcAgent) : Type 0 where
  pub agent : PcAgent
  pub stored : find (has_id id) agents ≡ some agent
  pub has : agent.agent_secret_hash ≡ some hash

module _ (id hash : Text) (env : Env) where
  abbrev P : Db → Type 0
  P db = HasSecret id hash db.pc_agents

  append-HasSecret :
      (row : PcAgent) (agents : List PcAgent)
      → HasSecret id hash agents
      → HasSecret id hash (agents ++ row ∷ [])
  append-HasSecret row agents h = record {
    agent = h.agent;
    stored = find-append_some (has_id id) agents (row ∷ []) h.agent h.stored;
    has = h.has;
  }

  update-HasSecret :
      (p : PcAgent → Bool) (f : PcAgent → PcAgent) (agents : List PcAgent)
      → ((x : PcAgent) → has_id id (f x) ≡ has_id id x)
      → ((x : PcAgent)
          → x.agent_secret_hash ≡ some hash
          → p x ≡ true
          → (f x).agent_secret_hash ≡ some hash)
      → HasSecret id hash agents
      → HasSecret id hash (update p f agents)
  update-HasSecret p f agents same keep h = record {
    agent = if p h.agent then f h.agent else h.agent;
    stored = find-update (has_id id) p f same agents h.agent h.stored;
    has = elim (Bool-cases (p h.agent)) [
      | inl e ↦ rw e (keep h.agent h.has e)
      | inr e ↦ rw e h.has
    ];
  }

  insert_agent-P : (row : PcAgent) (db : Db) → P db → P (insert_agent row db).1
  unfolding insert_agent
  insert_agent-P row db h = elim (Bool-cases (any (has_id row.id) db.pc_agents)) [
    | inl e ↦ rw e h
    | inr e ↦ elim (Bool-cases (any (Users.has_id row.user_id) db.users)) [
      | inl f ↦ rw (e, f) (append-HasSecret row db.pc_agents h)
      | inr f ↦ rw (e, f) h
    ]
  ]

  update_where-Keeps :
      (p : PcAgent → Bool) (f : PcAgent → PcAgent)
      → ((x : PcAgent) → has_id id (f x) ≡ has_id id x)
      → ((x : PcAgent)
          → x.agent_secret_hash ≡ some hash
          → p x ≡ true
          → (f x).agent_secret_hash ≡ some hash)
      → Keeps P (PcAgents.update_where env p f)
  unfolding PcAgents.update_where
  update_where-Keeps p f same keep = Keeps-statement env _ λ n db h. kept db (find p db.pc_agents) h
    where
      kept : (db : Db) (found : Option PcAgent) → P db → P (update_agents p f db found).1
      kept db none h = h
      kept db (some agent) h = update-HasSecret p f db.pc_agents same keep h

  update_session-Keeps :
      (p : PairingSession → Bool) (f : PairingSession → PairingSession)
      → Keeps P (PairingSessions.update_session env p f)
  unfolding PairingSessions.update_session
  update_session-Keeps p f = Keeps-statement env _ λ n db h. kept db (find p db.pairing_sessions) h
    where
      kept : (db : Db) (found : Option PairingSession) → P db → P (update_sessions p f db found).1
      kept db none h = h
      kept db (some session) h = h

  session_insertion-P :
      (session : PairingSession) (n : ℕ) (db : Db)
      → P db
      → P (PairingSessions.insert_session env session n db).1
  unfolding PairingSessions.insert_session
  session_insertion-P session n db h = if-Keeps P _ (err _, db) _ h h

  secret-Rules : Rules P env
  secret-Rules = record {
    agent_insertion = insert_agent-P;
    session_insertion = session_insertion-P;
    expiry = λ p. update_session-Keeps p PairingSessions.as_expired;
    confirmation = λ p user_id agent_id at.
        update_session-Keeps p (PairingSessions.as_confirmed user_id agent_id at);
    secret = λ agent_id new_hash.
        update_where-Keeps (lacks_secret agent_id) (with_secret_hash new_hash) (λ x. refl)
          (λ x h t. ground arith);
    verification = λ p at. update_where-Keeps p (verified at) (λ x. refl) (λ x h t. h);
    protection = λ p status. update_where-Keeps p (with_protection status) (λ x. refl) (λ x h t. h);
  }

  -- Every sequence of requests without a deletion leaves the agent with the hash of its secret.
  pub serve_all-HasSecret :
      (w : World) (rs : List Request) → All IsNoDeletion rs → P w.db → P (serve_all env w rs).db
  serve_all-HasSecret w rs t h =
      serve_all-Keeps env secret-Rules IsNoDeletion (λ user_id agent_id t. absurd t) w rs t h
