-- ===== src/Tests/Pairing.antt =====
-- Pairing an agent at concrete inputs.
use datn_backend.Repo.PairingSessions.{
  reject_expired, adopt, confirm_locked, has_code, as_confirmed, confirm,
}
use datn_backend.Prelude.{
  ◌*◌, ◌≡◌, ◌≢◌, ◌⊎◌, refl, true, false, none, some, List, [], ◌∷◌, arith, All, length,
}
use datn_backend.Prelude.Tables.{find, any, update}
use datn_backend.Text.{Text, utf8, trim_space, to_lower, to_upper}
use datn_backend.Text.Base64.{encode}
use datn_backend.Domain.{second}
use datn_backend.Domain.Pairing.{PairingSession, PcAgent, pending, confirmed, offline, disabled}
use datn_backend.Errors.{usecase, repo, UsecaseError, RepoError, index_out_of_range, ok, err}
use datn_backend.World.{World, empty_db}
use datn_backend.Repo.Keys.{In}
use datn_backend.Repo.PairingSessions.Confirmation.{Confirmed, Expired, confirm_ok, confirm_err}
use datn_backend.Pairing.Codes.{device_code_alphabet, generate_device_code}
use datn_backend.Pairing.Codes.Letters.{generate_device_code_shape, generate_device_code_in_range}
use datn_backend.Pairing.Start.{start_pairing, try_codes, try_code, store_code}
use datn_backend.Pairing.Start.Outcomes.{Started, start_pairing_ok, start_pairing_err}
use datn_backend.Pairing.Status.{
  PairingStatusResult, get_pairing_status, current_session, expire_if_due, credential, issue_secret,
  or_mismatch,
}
use datn_backend.Pairing.Status.Secrets.{Issued, get_pairing_status_issues}
use datn_backend.Pairing.Agents.{verify_pc_agent}
use datn_backend.Pairing.Requests.{Request, serve_all}
use datn_backend.Pairing.Credentials.{
  Verified, get_pairing_status_once, verify_pc_agent-get_pairing_status,
}
use datn_backend.Tests.Environment.{env, empty_world, env-IsRandom, env-IsBcrypt}
use datn_backend.Tests.Auth.{user}

abbrev pub code : Text
code = utf8 "LLLLLL"

generated : (generate_device_code env empty_world).0 ≡ ok code
unfolding generate_device_code
generated = refl

generate_device_code_shape_example : (length code ≡ 6) × All (λ c. In c device_code_alphabet) code
generate_device_code_shape_example = generate_device_code_shape env empty_world code generated

generate_device_code_in_range_example :
    (generate_device_code env empty_world).0 ≢ err index_out_of_range
generate_device_code_in_range_example = generate_device_code_in_range env empty_world env-IsRandom

abbrev pub session : PairingSession
session = record {
  id = 8 ∷ [];
  device_code = code;
  requested_pc_agent_id = some (8 ∷ b'a' ∷ []);
  device_name = utf8 "laptop";
  os_type = utf8 "linux";
  status = pending;
  expires_at = 608 * second;
  confirmed_by_user_id = none;
  pc_agent_id = none;
  confirmed_at = none;
  created_at = 9 * second;
}

starts : (start_pairing env (utf8 " laptop") (utf8 "Linux ") empty_world).0 ≡ ok session
unfolding start_pairing trim_space to_lower try_codes try_code generate_device_code any store_code
starts = refl

start_pairing_ok_example :
    Started env
      (trim_space (utf8 " laptop"))
      (trim_space (to_lower env.lower_unicode (utf8 "Linux ")))
      session
      empty_db
      (start_pairing env (utf8 " laptop") (utf8 "Linux ") empty_world).1
start_pairing_ok_example =
    start_pairing_ok env (utf8 " laptop") (utf8 "Linux ") empty_world session starts

-- The only code of the generator is in use.
abbrev full_world : World
full_world = record empty_world { db = record empty_db { pairing_sessions = session ∷ [] } }

gives_up :
    (start_pairing env (utf8 "desk") (utf8 "linux") full_world).0
    ≡ err (usecase UsecaseError.pairing_code_unavailable)
unfolding start_pairing trim_space to_lower try_codes try_code generate_device_code any
gives_up = refl

start_pairing_err_example :
    (start_pairing env (utf8 "desk") (utf8 "linux") full_world).1.db ≡ full_world.db
start_pairing_err_example =
    start_pairing_err env (utf8 "desk") (utf8 "linux") full_world
      (usecase UsecaseError.pairing_code_unavailable) gives_up

abbrev waiting : World
waiting = record {
  db = record empty_db { users = user ∷ []; pairing_sessions = session ∷ [] };
  steps = 20;
}

abbrev pub agent : PcAgent
agent = record {
  id = 8 ∷ b'a' ∷ [];
  user_id = user.id;
  device_name = utf8 "laptop";
  os_type = utf8 "linux";
  agent_secret_hash = none;
  status = offline;
  protection_status = disabled;
  last_seen_at = none;
  created_at = 23 * second;
}

confirms : (confirm env code user.id (20 * second) waiting).0 ≡ ok agent
unfolding confirm find confirm_locked adopt any
confirms = refl

confirm_ok_example :
    (s : PairingSession) × (find (has_code code) waiting.pairing_sessions ≡ some s)
    × Confirmed env user.id
        (20 * second)
        s
        waiting.db
        (confirm env code user.id (20 * second) waiting).1.db
        agent
confirm_ok_example = confirm_ok env user.id (20 * second) code waiting agent confirms

-- Eleven minutes later.
too_late :
    (confirm env code user.id (680 * second) waiting).0
    ≡ err (repo RepoError.pairing_session_expired)
unfolding confirm find confirm_locked reject_expired
too_late = refl

confirm_err_example :
    ((confirm env code user.id (680 * second) waiting).1.db ≡ waiting.db)
    ⊎ ((s : PairingSession) × (find (has_code code) waiting.pairing_sessions ≡ some s)
        × (repo RepoError.pairing_session_expired ≡ repo RepoError.pairing_session_expired)
        × Expired env user.id
            (680 * second)
            s
            waiting.db
            (confirm env code user.id (680 * second) waiting).1.db)
confirm_err_example =
    confirm_err env user.id (680 * second) code waiting (repo RepoError.pairing_session_expired)
      too_late

abbrev agent_id : Text
agent_id = 8 ∷ b'a' ∷ []

abbrev paired : World
paired = record {
  db = record empty_db {
    users = user ∷ [];
    pairing_sessions = as_confirmed user.id agent_id (20 * second) session ∷ [];
    pc_agents = agent ∷ [];
  };
  steps = 30;
}

abbrev answer : PairingStatusResult
answer = record {
  status = confirmed;
  pc_agent_id = some agent_id;
  agent_secret = utf8 "IA";
  credential_issued = false;
}

answers : (get_pairing_status env (8 ∷ []) (utf8 "llllll") paired).0 ≡ ok answer
unfolding get_pairing_status trim_space to_upper current_session or_mismatch find expire_if_due
    credential issue_secret encode
answers = refl

get_pairing_status_issues_example :
    Issued env answer paired.pc_agents
      (get_pairing_status env (8 ∷ []) (utf8 "llllll") paired).1.pc_agents
get_pairing_status_issues_example =
    get_pairing_status_issues env (8 ∷ []) (utf8 "llllll") paired answer answers (ground arith)

-- The agent asks again after a verification.
abbrev requests : List Request
requests =
    Request.verify_pc_agent agent_id (utf8 "IA")
    ∷ Request.start_pairing (utf8 "desk") (utf8 "linux")
    ∷ []

abbrev second_answer : PairingStatusResult
second_answer = record answer { agent_secret = []; credential_issued = true }

answers_again :
    (get_pairing_status env
      (8 ∷ [])
      code
      (serve_all env (get_pairing_status env (8 ∷ []) (utf8 "llllll") paired).1 requests)).0
    ≡ ok second_answer
unfolding get_pairing_status trim_space to_upper current_session or_mismatch find serve_all
    start_pairing to_lower try_codes try_code generate_device_code any verify_pc_agent expire_if_due
    credential issue_secret update encode
answers_again = refl

get_pairing_status_once_example : second_answer.agent_secret ≡ []
get_pairing_status_once_example =
    get_pairing_status_once env (8 ∷ []) (utf8 "llllll") (8 ∷ []) code agent_id paired answer
      second_answer requests answers (ground arith) refl (tt, (tt, tt)) answers_again refl

trimmed : trim_space agent_id ≡ agent_id
unfolding trim_space
trimmed = refl

-- The world in which the agent presents its secret.
abbrev presented : World
presented = serve_all env (get_pairing_status env (8 ∷ []) (utf8 "llllll") paired).1 requests

verify_pc_agent-get_pairing_status_example :
    Verified env agent_id presented (verify_pc_agent env agent_id (utf8 "IA") presented)
verify_pc_agent-get_pairing_status_example =
    verify_pc_agent-get_pairing_status env (8 ∷ []) (utf8 "llllll") agent_id paired answer requests
      env-IsBcrypt answers (ground arith) refl trimmed (ground arith) (tt, (tt, tt)) refl refl
