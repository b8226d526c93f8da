-- ===== src/Pairing/Agents.antt =====
-- VerifyPCAgent, the updates of an agent and DeletePCAgent.
use datn_backend.Prelude.{Bool, true, false, not, ◌||◌, none, some, List}
use datn_backend.Text.{Text, trim_space, is_empty}
use datn_backend.Domain.Pairing.{PcAgent, ProtectionStatus, enabled, disabled}
use datn_backend.Errors.{Error, usecase, repo, UsecaseError, RepoError}
use datn_backend.World.{Env}
use datn_backend.Action.{Action, pure, guard, translate, now, ◌>>=◌, ◌>>◌}
use datn_backend.Repo.PcAgents

abbrev pub or_credential_invalid : Error → Error
or_credential_invalid (repo RepoError.pc_agent_not_found) =
    usecase UsecaseError.agent_credential_invalid
or_credential_invalid e = e

abbrev pub or_pc_agent_not_found : Error → Error
or_pc_agent_not_found (repo RepoError.pc_agent_not_found) = usecase UsecaseError.pc_agent_not_found
or_pc_agent_not_found e = e

-- agent.AgentSecretHash == nil, or the comparison fails.
abbrev pub fits : Env → Text → PcAgent → Bool
fits env agent_secret agent = elim agent.agent_secret_hash [
  | none ↦ false
  | some hash ↦ env.bcrypt_compare hash agent_secret
]

abbrev pub protection_of : Bool → ProtectionStatus
protection_of true = enabled
protection_of false = disabled

module _ (env : Env) where
  -- What VerifyPCAgent and UpdatePCAgentOwnProtection begin with.
  unfoldable pub authenticate : Text → Text → Action PcAgent
  unfolding PcAgents.find_by_id
  authenticate id_input secret_input = do
    let pc_agent_id = trim_space id_input
    let agent_secret = trim_space secret_input
    guard (not (is_empty pc_agent_id || is_empty agent_secret))
        (usecase UsecaseError.agent_credential_invalid)
    agent ← translate or_credential_invalid (PcAgents.find_by_id env pc_agent_id)
    guard (fits env agent_secret agent) (usecase UsecaseError.agent_credential_invalid)
    pure agent

  unfoldable pub verify_pc_agent : Text → Text → Action PcAgent
  unfolding authenticate now PcAgents.mark_verified
  verify_pc_agent id_input secret_input = do
    agent ← authenticate id_input secret_input
    at ← now env
    PcAgents.mark_verified env agent.id at

  unfoldable pub update_pc_agent_own_protection : Text → Text → Bool → Action PcAgent
  unfolding authenticate now PcAgents.mark_verified PcAgents.update_protection_status_by_id
  update_pc_agent_own_protection id_input secret_input on = do
    agent ← authenticate id_input secret_input
    updated ←
        translate or_credential_invalid
          (PcAgents.update_protection_status_by_id env agent.id (protection_of on))
    at ← now env
    PcAgents.mark_verified env updated.id at

  unfoldable pub list_pc_agents : Text → Action (List PcAgent)
  unfolding PcAgents.find_by_user_id
  list_pc_agents user_input = do
    let user_id = trim_space user_input
    guard (not (is_empty user_id)) (usecase UsecaseError.invalid_input)
    PcAgents.find_by_user_id env user_id

  unfoldable pub delete_pc_agent : Text → Text → Action (Unit {0})
  unfolding PcAgents.delete_by_id_and_user_id
  delete_pc_agent user_input id_input = do
    let user_id = trim_space user_input
    let pc_agent_id = trim_space id_input
    guard (not (is_empty user_id || is_empty pc_agent_id)) (usecase UsecaseError.invalid_input)
    translate or_pc_agent_not_found (PcAgents.delete_by_id_and_user_id env pc_agent_id user_id)

  unfoldable pub update_pc_agent_protection : Text → Text → Bool → Action PcAgent
  unfolding PcAgents.update_protection_status_by_id_and_user_id
  update_pc_agent_protection user_input id_input on = do
    let user_id = trim_space user_input
    let pc_agent_id = trim_space id_input
    guard (not (is_empty user_id || is_empty pc_agent_id)) (usecase UsecaseError.invalid_input)
    translate or_pc_agent_not_found (
        PcAgents.update_protection_status_by_id_and_user_id env pc_agent_id user_id
          (protection_of on))
