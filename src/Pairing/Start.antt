-- ===== src/Pairing/Start.antt =====
-- StartPairing and ConfirmPairing.
pub mod Outcomes
use datn_backend.Prelude.{
  ℕ, zero, suc, ◌+◌, ◌*◌, Bool, true, false, not, ◌||◌, Option, none, some, List, [], ◌∷◌,
  if◌then◌else◌,
}
use datn_backend.Text.{Text, trim_space, to_lower, to_upper, is_empty}
use datn_backend.Domain.{Time, minute}
use datn_backend.Domain.Pairing.{PairingSession, PcAgent, pending}
use datn_backend.Errors.{Error, usecase, repo, UsecaseError, RepoError, Result, ok, err}
use datn_backend.World.{World, Env}
use datn_backend.Action.{Action, pure, raise, lift, guard, inspect, translate, now, ◌>>=◌, ◌>>◌}
use datn_backend.Repo.PairingSessions
use datn_backend.Pairing.Codes.{generate_device_code}

abbrev pub pairing_session_ttl : ℕ
pairing_session_ttl = 10 * minute

abbrev pub device_code_max_retries : ℕ
device_code_max_retries = 10

-- The domain.PairingSession of StartPairing.
abbrev pub new_session : Text → Text → Text → Time → PairingSession
new_session device_code device_name os_type expires_at = record {
  id = [];
  device_code = device_code;
  requested_pc_agent_id = none;
  device_name = device_name;
  os_type = os_type;
  status = pending;
  expires_at = expires_at;
  confirmed_by_user_id = none;
  pc_agent_id = none;
  confirmed_at = none;
  created_at = 0;
}

-- if errors.Is(err, repo.ErrPairingSessionCodeExists) { continue }
abbrev pub unless_code_exists :
    Action PairingSession → Result PairingSession → Action PairingSession
unless_code_exists next (err (repo RepoError.pairing_session_code_exists)) = next
unless_code_exists next r = lift r

-- The repository's errors as the use case names them.
abbrev pub or_pairing_error : Error → Error
or_pairing_error (repo RepoError.pairing_session_not_found) =
    usecase UsecaseError.pairing_session_not_found
or_pairing_error (repo RepoError.pairing_session_not_pending) =
    usecase UsecaseError.pairing_session_not_pending
or_pairing_error (repo RepoError.pairing_session_expired) =
    usecase UsecaseError.pairing_session_expired
or_pairing_error e = e

module _ (env : Env) where
  unfoldable pub store_code : Text → Text → Text → Action PairingSession
  unfolding now PairingSessions.create
  store_code device_name os_type device_code = do
    at ← now env
    PairingSessions.create env
        (new_session device_code device_name os_type (at + pairing_session_ttl))

  -- One round of the loop; `next` are the others.
  unfoldable pub try_code : Action PairingSession → Text → Text → Action PairingSession
  unfolding PairingSessions.exists_by_device_code
  try_code next device_name os_type = do
    device_code ← generate_device_code env
    exists ← PairingSessions.exists_by_device_code env device_code
    if exists
        then next
        else inspect (unless_code_exists next) (store_code device_name os_type device_code)

  -- With this many rounds left.
  unfoldable pub try_codes : ℕ → Text → Text → Action PairingSession
  try_codes zero device_name os_type = raise (usecase UsecaseError.pairing_code_unavailable)
  try_codes (suc n) device_name os_type =
      try_code (try_codes n device_name os_type) device_name os_type

  unfoldable pub start_pairing : Text → Text → Action PairingSession
  start_pairing name_input os_input = do
    let device_name = trim_space name_input
    let os_type = trim_space (to_lower env.lower_unicode os_input)
    guard (not (is_empty device_name || is_empty os_type)) (usecase UsecaseError.invalid_input)
    try_codes device_code_max_retries device_name os_type

  unfoldable pub confirm_pairing : Text → Text → Action PcAgent
  unfolding now
  confirm_pairing user_input code_input = do
    let user_id = trim_space user_input
    let device_code = trim_space (to_upper env.upper_unicode code_input)
    guard (not (is_empty user_id || is_empty device_code)) (usecase UsecaseError.invalid_input)
    at ← now env
    translate or_pairing_error (PairingSessions.confirm env device_code user_id at)
