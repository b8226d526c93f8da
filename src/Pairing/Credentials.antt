-- ===== src/Pairing/Credentials.antt =====
-- The secret of an agent is handed out once, and lets the agent in.
use datn_backend.Prelude.{
  false, ◌∙◌, ◌+◌, ◌≡◌, ◌≢◌, refl, sym, subst, inl, inr, true, none, some, List, [], arith,
  if◌then◌else◌, Bool-cases, All,
}
use datn_backend.Prelude.Tables.{find, find_sound, find-update, update}
use datn_backend.Text.{Text, trim_space, is_empty, text_eq_refl, text_eq_iff}
use datn_backend.Domain.Pairing.{PcAgent, online}
use datn_backend.Errors.{Result, ok}
use datn_backend.World.{World, Env, IsBcrypt}
use datn_backend.Repo.PcAgents.{has_id, lacks_secret, with_secret_hash, verified}
use datn_backend.Pairing.Status.{PairingStatusResult, get_pairing_status}
use datn_backend.Pairing.Status.Secrets.{Issued, get_pairing_status_issues}
use datn_backend.Pairing.Agents.{fits, authenticate, verify_pc_agent}
use datn_backend.Pairing.Requests.{Request, serve_all, IsNoDeletion}
use datn_backend.Pairing.Requests.Secrets.{HasSecret, serve_all-HasSecret}

module _ (env : Env) where
  lacks_secret_found :
      (agent : PcAgent) → agent.agent_secret_hash ≡ none → lacks_secret agent.id agent ≡ true
  lacks_secret_found agent lacked = ground (arith, text_eq_refl agent.id)

  Issued-HasSecret :
      (r : PairingStatusResult) (before after : List PcAgent) (i : Issued env r before after)
      → HasSecret i.agent.id i.hash after
  Issued-HasSecret r before after i =
      let p = lacks_secret i.agent.id in
      let f = with_secret_hash i.hash in
      let here = lacks_secret_found i.agent i.lacked in
      subst (HasSecret i.agent.id i.hash) (sym i.wrote) (record {
        agent = if p i.agent then f i.agent else i.agent;
        stored = find-update (has_id i.agent.id) p f (λ x. refl) before i.agent i.found;
        has = rw here refl;
      })

  issues_nothing :
      (id code hash : Text) (agent_id : Text) (w : World) (r : PairingStatusResult)
      → HasSecret agent_id hash w.pc_agents
      → (get_pairing_status env id code w).0 ≡ ok r
      → r.pc_agent_id ≡ some agent_id
      → r.agent_secret ≡ []
  issues_nothing id code hash agent_id w r h got paired =
      elim (Bool-cases (is_empty r.agent_secret)) [
        | inl e ↦ ground arith
        | inr e ↦
            (let i = get_pairing_status_issues env id code w r got (ground arith) in
              let same : i.agent.id ≡ agent_id = (let q = i.paired in ground arith) in
              let found : find (has_id agent_id) w.pc_agents ≡ some i.agent = rw (← same) i.found in
              absurd (cc (found, h.stored, h.has, i.lacked)))
      ]

  -- Once a status answer has carried the secret of an agent, no later status answer carries a
  -- secret of it, whatever requests come between, as long as no agent is deleted.
  pub get_pairing_status_once :
      (id code again code' agent_id : Text) (w : World) (r s : PairingStatusResult)
      (rs : List Request)
      → (get_pairing_status env id code w).0 ≡ ok r
      → r.agent_secret ≢ []
      → r.pc_agent_id ≡ some agent_id
      → All IsNoDeletion rs
      → (get_pairing_status env again code'
          (serve_all env (get_pairing_status env id code w).1 rs)).0
        ≡ ok s
      → s.pc_agent_id ≡ some agent_id
      → s.agent_secret ≡ []
  get_pairing_status_once id code again code' agent_id w r s rs got secret paired quiet later
        paired' =
      let i = get_pairing_status_issues env id code w r got secret in
      let same : i.agent.id ≡ agent_id = (let q = i.paired in ground arith) in
      let h = Issued-HasSecret r _ _ i in
      let kept = serve_all-HasSecret i.agent.id i.hash env _ rs quiet h in
      issues_nothing again code' i.hash i.agent.id _ s kept later (rw same paired')

  -- The agent was let in: it is marked as online from an instant of the call on, in the answer and
  -- in the table, where its secret stays.
  pub record Verified (agent_id : Text) (before : World) (r : Result PcAgent × World) : Type 0 where
    pub agent : PcAgent
    pub answered : r.0 ≡ ok agent
    pub named : agent.id ≡ agent_id
    pub waits : agent.status ≡ online
    pub seen : agent.last_seen_at ≡ some (env.clock (before.steps + 1))
    pub stored : find (has_id agent_id) r.1.pc_agents ≡ some agent

  authenticate_fits :
      (id secret hash : Text) (w : World)
      → (h : HasSecret id hash w.pc_agents) → env.bcrypt_compare hash secret ≡ true
      → trim_space id ≡ id
      → trim_space secret ≡ secret
      → id ≢ []
      → secret ≢ []
      → env.db_fails w.steps ≡ false
      → authenticate env id secret w ≡ (ok h.agent, record w { steps = w.steps + 1 })
  unfolding authenticate
  authenticate_fits id secret hash w h matches id_plain secret_plain named some_secret works =
      let fit : fits env secret h.agent ≡ true = (let a = h.has in rw a matches) in
      let found = h.stored in
      let id_given : is_empty id ≡ false = ground arith in
      let secret_given : is_empty secret ≡ false = ground arith in
      rw (id_plain, secret_plain, id_given, secret_given) (rw (works, found) (rw fit refl))

  verify_fits :
      (id secret hash : Text) (w : World)
      → HasSecret id hash w.pc_agents
      → env.bcrypt_compare hash secret ≡ true
      → trim_space id ≡ id
      → trim_space secret ≡ secret
      → id ≢ []
      → secret ≢ []
      → env.db_fails w.steps ≡ false
      → env.db_fails (w.steps + 1 + 1) ≡ false
      → Verified id w (verify_pc_agent env id secret w)
  unfolding verify_pc_agent
  verify_fits id secret hash w h matches id_plain secret_plain named some_secret works works' =
      let passes =
        authenticate_fits id secret hash w h matches id_plain secret_plain named some_secret
          works in
      let same : h.agent.id ≡ id =
        (text_eq_iff h.agent.id id).0 (find_sound (has_id id) w.pc_agents h.agent h.stored) in
      let f = verified (env.clock (w.steps + 1)) in
      let stored : find (has_id id) (update (has_id id) f w.pc_agents) ≡ some (f h.agent) =
        find-update (has_id id) (has_id id) f (λ x. refl) w.pc_agents h.agent h.stored
        ∙ rw (find_sound (has_id id) w.pc_agents h.agent h.stored) refl in
      rw (passes, same, works')
        (rw h.stored (record {
          agent = f h.agent;
          answered = refl;
          named = same;
          waits = refl;
          seen = refl;
          stored = stored;
        }))

  -- The secret of a status answer lets the agent in: after any requests without a deletion,
  -- VerifyPCAgent succeeds with it, where its two statements do not fail. It answers with the agent
  -- of that identifier, which it has marked as online, and as seen at the instant of the call, also
  -- in the table. The identifier is a UUID, so it is not empty and has no white space at its ends.
  pub verify_pc_agent-get_pairing_status :
      (id code agent_id : Text) (w : World) (r : PairingStatusResult) (rs : List Request)
      → IsBcrypt env
      → (get_pairing_status env id code w).0 ≡ ok r
      → r.agent_secret ≢ []
      → r.pc_agent_id ≡ some agent_id
      → trim_space agent_id ≡ agent_id
      → agent_id ≢ []
      → All IsNoDeletion rs
      → env.db_fails (serve_all env (get_pairing_status env id code w).1 rs).steps ≡ false
      → env.db_fails ((serve_all env (get_pairing_status env id code w).1 rs).steps + 1 + 1) ≡ false
      → Verified agent_id (serve_all env (get_pairing_status env id code w).1 rs) (
          verify_pc_agent env agent_id r.agent_secret
            (serve_all env (get_pairing_status env id code w).1 rs))
  verify_pc_agent-get_pairing_status id code agent_id w r rs bcrypt got secret paired plain named
        quiet works works' =
      let i = get_pairing_status_issues env id code w r got secret in
      let same : i.agent.id ≡ agent_id = (let q = i.paired in ground arith) in
      let v = (get_pairing_status env id code w).1 in
      let kept = serve_all-HasSecret i.agent.id i.hash env v rs quiet (Issued-HasSecret r _ _ i) in
      verify_fits agent_id r.agent_secret i.hash (serve_all env v rs) (rw same at kept)
        (bcrypt.accepts i.at r.agent_secret i.hash i.hashed) plain i.plain named secret works works'
