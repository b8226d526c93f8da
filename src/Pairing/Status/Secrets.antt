-- ===== src/Pairing/Status/Secrets.antt =====
-- GetPairingStatus hands the secret of an agent out once.
use datn_backend.Prelude.{
  ℕ, ◌+◌, ◌≡◌, ◌≢◌, refl, ap, sym, subst, ◌∙◌, inl, inr, true, not, ◌||◌, Option, none, some, List,
  [], arith, Bool-cases, Option-cases,
}
use datn_backend.Prelude.Tables.{find, update, find_sound}
use datn_backend.Text.{Text, text_eq_iff, trim_space, to_upper, is_empty}
use datn_backend.Domain.{is_some}
use datn_backend.Domain.Pairing.{PcAgent, PairingStatus}
use datn_backend.Errors.{usecase, UsecaseError, ok, Result-cases}
use datn_backend.World.{World, Db, Env}
use datn_backend.Action.{guard}
use datn_backend.Action.Sequence.{bind_ok, guard_ok}
use datn_backend.Repo.PcAgents.{
  has_id, find_by_id, lacks_secret, with_secret_hash, set_agent_secret_hash_if_empty,
}
use datn_backend.Text.Base64.{encode}
use datn_backend.Text.Base64.Plain.{trim_space-encode}
use datn_backend.Pairing.Status.Lookup.{current_session-Keeps}
use datn_backend.Pairing.Codes.{agent_secret_bytes}
use datn_backend.Pairing.Status.{
  PairingStatusResult, status_of, paired_agent, current_session, issue_secret, credential,
  get_pairing_status,
}

module _ (env : Env) where
  -- The call stored the hash of the secret in the row of an agent that had none.
  pub record Issued (r : PairingStatusResult) (before after : List PcAgent) : Type 0 where
    pub agent : PcAgent
    pub at : ℕ
    pub hash : Text
    pub paired : r.pc_agent_id ≡ some agent.id
    pub found : find (has_id agent.id) before ≡ some agent
    pub lacked : agent.agent_secret_hash ≡ none
    pub plain : trim_space r.agent_secret ≡ r.agent_secret
    pub hashed : env.bcrypt_generate at r.agent_secret ≡ some hash
    pub wrote : after ≡ update (lacks_secret agent.id) (with_secret_hash hash) before

  set_hash_ok :
      (id hash : Text) (w : World) (agent : PcAgent)
      → (set_agent_secret_hash_if_empty env id hash w).0 ≡ ok (agent, true)
      → (set_agent_secret_hash_if_empty env id hash w).1.pc_agents
        ≡ update (lacks_secret id) (with_secret_hash hash) w.pc_agents
  unfolding set_agent_secret_hash_if_empty
  set_hash_ok id hash w agent h = ground arith

  issue_secret_ok :
      (result r : PairingStatusResult) (agent : PcAgent) (w : World)
      → (issue_secret env result agent w).0 ≡ ok r
      → result.agent_secret ≡ []
      → r.agent_secret ≢ []
      → (r.pc_agent_id ≡ result.pc_agent_id)
        × (trim_space r.agent_secret ≡ r.agent_secret)
        × ((hash : Text) × (env.bcrypt_generate (w.steps + 1) r.agent_secret ≡ some hash)
            × ((issue_secret env result agent w).1.pc_agents
                ≡ update (lacks_secret agent.id) (with_secret_hash hash) w.pc_agents))
  unfolding issue_secret
  issue_secret_ok result r agent w h empty secret =
      elim (Option-cases (env.rand_read w.steps agent_secret_bytes)) [
        | inl e ↦ absurd (ground arith)
        | inr (bytes, e) ↦ elim (Option-cases (env.bcrypt_generate (w.steps + 1) (encode bytes))) [
          | inl f ↦ absurd (ground arith)
          | inr (hash, f) ↦
              (let v = record w { steps = w.steps + 1 + 1 } in
                elim (Result-cases (set_agent_secret_hash_if_empty env agent.id hash v).0) [
                  | inl (x, g) ↦ absurd (ground arith)
                  | inr ((stored, issued), g) ↦ elim (Bool-cases issued) [
                    | inr late ↦ absurd (ground arith)
                    | inl first ↦
                        (let wrote = set_hash_ok agent.id hash v stored (rw first at g) in
                          (
                            ground arith,
                            (let same : encode bytes ≡ r.agent_secret = ground arith in
                                rw (← same) (trim_space-encode bytes)),
                            (hash, ground arith, ground arith),
                          ))
                  ]
                ])
        ]
      ]

  find_by_id_ok :
      (id : Text) (w : World) (agent : PcAgent)
      → (find_by_id env id w).0 ≡ ok agent
      → (find (has_id id) w.pc_agents ≡ some agent) × ((find_by_id env id w).1.db ≡ w.db)
  unfolding find_by_id
  find_by_id_ok id w agent h = (ground arith, ground arith)

  found_id :
      (id : Text) (w : World) (agent : PcAgent)
      → find (has_id id) w.pc_agents ≡ some agent
      → agent.id ≡ id
  found_id id w agent h = (text_eq_iff agent.id id).0 (find_sound (has_id id) w.pc_agents agent h)

  credential_issues :
      (status : PairingStatus) (paired : Option Text) (r : PairingStatusResult) (w : World)
      → (credential env status paired w).0 ≡ ok r
      → r.agent_secret ≢ []
      → Issued r w.pc_agents (credential env status paired w).1.pc_agents
  unfolding credential
  credential_issues status none r w h secret = absurd (ground arith)
  credential_issues status (some id) r w h secret =
      let (agent, got, same) = bind_ok (find_by_id env id) _ w r h in
      let (found, kept) = find_by_id_ok id w agent got in
      let named = found_id id w agent found in
      let v = (find_by_id env id w).1 in
      elim (Bool-cases (is_some agent.agent_secret_hash)) [
        | inl has ↦
            (let no_secret : [] ≡ r.agent_secret = (let g = rw (same, has) at h in ground arith) in
              absurd (secret (sym no_secret)))
        | inr lacks ↦
            (let g = rw (same, lacks) at h in
              let (paired, plain, (hash, hashed, wrote)) =
                issue_secret_ok (status_of status (some id)) r agent v g refl secret in
              rw (same, lacks)
                (record {
                  agent = agent;
                  at = v.steps + 1;
                  hash = hash;
                  paired = rw named paired;
                  found = rw named found;
                  lacked = ground arith;
                  plain = plain;
                  hashed = hashed;
                  wrote =
                      wrote
                      ∙ ap
                          (λ (db : Db).
                            update (lacks_secret agent.id) (with_secret_hash hash) db.pc_agents)
                          kept;
                }))
      ]

  -- A status answer with a secret stored a hash of it in the row of the agent that it names, which
  -- had none before, and the secret has no white space at its ends.
  pub get_pairing_status_issues :
      (id code : Text) (w : World) (r : PairingStatusResult)
      → (get_pairing_status env id code w).0 ≡ ok r
      → r.agent_secret ≢ []
      → Issued r w.pc_agents (get_pairing_status env id code w).1.pc_agents
  unfolding get_pairing_status
  get_pairing_status_issues id_input code_input w r h secret =
      let id = trim_space id_input in
      let code = trim_space (to_upper env.upper_unicode code_input) in
      let (_, passed, same) =
        bind_ok (guard (not (is_empty id || is_empty code)) (usecase UsecaseError.invalid_input)) _
          w r h in
      let (_, here) = guard_ok (not (is_empty id || is_empty code)) _ w passed in
      let (session, _, same') =
        bind_ok (current_session env id code) (λ s. credential env s.status (paired_agent s)) w r
          (rw (← here) (rw same at h)) in
      let v = (current_session env id code w).1 in
      let kept = (current_session-Keeps env w.pc_agents id code).at w refl in
      let step : (credential env session.status (paired_agent session) v).0 ≡ ok r =
        rw (← same') (rw (← here) (rw same at h)) in
      let issued = credential_issues session.status (paired_agent session) r v step secret in
      rw (same, here, same')
        (subst
          (λ agents.
            Issued r agents (credential env session.status (paired_agent session) v).1.pc_agents)
          kept issued)
