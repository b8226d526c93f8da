-- ===== src/Pairing/Status.antt =====
-- GetPairingStatus.
pub mod Lookup
pub mod Secrets
use datn_backend.Prelude.{
  ℕ, ◌+◌, Bool, true, false, not, ◌||◌, ◌&&◌, Option, none, some, List, [], ◌∷◌, if◌then◌else◌, ltb,
}
use datn_backend.Text.{Text, trim_space, to_upper, is_empty}
use datn_backend.Domain.{Time, is_some}
use datn_backend.Domain.Pairing.{PairingSession, PcAgent, PairingStatus, is_pending, is_confirmed}
use datn_backend.Errors.{Error, usecase, repo, UsecaseError, RepoError, Result, ok, err}
use datn_backend.World.{World, Env}
use datn_backend.Action.{Action, pure, raise, lift, guard, inspect, translate, now, ◌>>=◌, ◌>>◌}
use datn_backend.Repo.PairingSessions
use datn_backend.Repo.PcAgents
use datn_backend.Pairing.Codes.{generate_agent_secret, hash_agent_secret}

pub record PairingStatusResult : Type 0 where
  pub status : PairingStatus
  pub pc_agent_id : Option Text
  pub agent_secret : Text
  pub credential_issued : Bool

-- Before the credential is looked at.
abbrev pub status_of : PairingStatus → Option Text → PairingStatusResult
status_of status pc_agent_id = record {
  status = status;
  pc_agent_id = pc_agent_id;
  agent_secret = [];
  credential_issued = false;
}

-- session.PCAgentID where session.Status == domain.PairingStatusConfirmed
abbrev pub paired_agent : PairingSession → Option Text
paired_agent session = if is_confirmed session.status then session.pc_agent_id else none

abbrev pub or_session_not_found : Error → Error
or_session_not_found (repo RepoError.pairing_session_not_found) =
    usecase UsecaseError.pairing_session_not_found
or_session_not_found e = e

module _ (env : Env) where
  -- The code of another session is a mismatch.
  unfoldable pub or_mismatch : Text → Result PairingSession → Action PairingSession
  unfolding PairingSessions.exists_by_device_code
  or_mismatch device_code (ok session) = pure session
  or_mismatch device_code (err (repo RepoError.pairing_session_not_found)) = do
    exists ← PairingSessions.exists_by_device_code env device_code
    raise (
        usecase (
          if exists
          then UsecaseError.pairing_session_mismatch
          else UsecaseError.pairing_session_not_found))
  or_mismatch device_code (err e) = raise e

  -- Another request has changed the session in the meantime.
  unfoldable pub or_reload : Text → Text → Result PairingSession → Action PairingSession
  unfolding PairingSessions.find_by_id_and_device_code
  or_reload id device_code (ok session) = pure session
  or_reload id device_code (err (repo RepoError.pairing_session_not_found)) =
      translate or_session_not_found (PairingSessions.find_by_id_and_device_code env id device_code)
  or_reload id device_code (err e) = raise e

  unfoldable pub expire_if_due : Text → Text → PairingSession → Action PairingSession
  unfolding now PairingSessions.expire PairingSessions.find_by_id_and_device_code
  expire_if_due id device_code session =
      if is_pending session.status
      then (do
        at ← now env
        if ltb session.expires_at at
            then inspect (or_reload id device_code) (PairingSessions.expire env session.id)
            else pure session)
      else pure session

  -- The secret is kept only if this call has stored its hash.
  unfoldable pub issue_secret : PairingStatusResult → PcAgent → Action PairingStatusResult
  unfolding generate_agent_secret hash_agent_secret PcAgents.set_agent_secret_hash_if_empty
  issue_secret result agent = do
    agent_secret ← generate_agent_secret env
    agent_secret_hash ← hash_agent_secret env agent_secret
    (_, issued) ← PcAgents.set_agent_secret_hash_if_empty env agent.id agent_secret_hash
    if issued
        then pure (record result { agent_secret = agent_secret })
        else pure (record result { credential_issued = true })

  unfoldable pub credential : PairingStatus → Option Text → Action PairingStatusResult
  unfolding PcAgents.find_by_id
  credential status none = pure (status_of status none)
  credential status (some pc_agent_id) = do
    agent ← PcAgents.find_by_id env pc_agent_id
    let result = status_of status (some pc_agent_id)
    if is_some agent.agent_secret_hash
        then pure (record result { credential_issued = true })
        else issue_secret result agent

  -- The session of the identifier and the code, expired if it is due.
  unfoldable pub current_session : Text → Text → Action PairingSession
  unfolding PairingSessions.find_by_id_and_device_code
  current_session pairing_session_id device_code = do
    found ←
        inspect (or_mismatch device_code)
          (PairingSessions.find_by_id_and_device_code env pairing_session_id device_code)
    expire_if_due pairing_session_id device_code found

  unfoldable pub get_pairing_status : Text → Text → Action PairingStatusResult
  get_pairing_status id_input code_input = do
    let pairing_session_id = trim_space id_input
    let device_code = trim_space (to_upper env.upper_unicode code_input)
    guard (not (is_empty pairing_session_id || is_empty device_code))
        (usecase UsecaseError.invalid_input)
    session ← current_session pairing_session_id device_code
    credential session.status (paired_agent session)
