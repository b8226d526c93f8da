-- ===== src/Pairing/Requests.antt =====
-- The requests of the agents and of their owners, one after the other, as the routes of
-- internal/delivery/http/router/router.go hand them to the use case.
pub mod Invariants
pub mod Secrets
pub mod Sessions
use datn_backend.Prelude.{Bool, true, false, List, [], ◌∷◌}
use datn_backend.Text.{Text}
use datn_backend.World.{World, Env}
use datn_backend.Pairing.Start
use datn_backend.Pairing.Status
use datn_backend.Pairing.Agents

pub data Request : Type 0 where
  start_pairing confirm_pairing get_pairing_status verify_pc_agent delete_pc_agent :
      Text → Text → Request
  update_pc_agent_own_protection update_pc_agent_protection : Text → Text → Bool → Request

module _ (env : Env) where
  -- The world that a request leaves, whatever its answer.
  unfoldable pub serve : World → Request → World
  serve w (start_pairing device_name os_type) = (Start.start_pairing env device_name os_type w).1
  serve w (confirm_pairing user_id device_code) =
      (Start.confirm_pairing env user_id device_code w).1
  serve w (get_pairing_status id device_code) = (Status.get_pairing_status env id device_code w).1
  serve w (verify_pc_agent id secret) = (Agents.verify_pc_agent env id secret w).1
  serve w (delete_pc_agent user_id id) = (Agents.delete_pc_agent env user_id id w).1
  serve w (update_pc_agent_own_protection id secret on) =
      (Agents.update_pc_agent_own_protection env id secret on w).1
  serve w (update_pc_agent_protection user_id id on) =
      (Agents.update_pc_agent_protection env user_id id on w).1

  unfoldable pub serve_all : World → List Request → World
  unfolding serve
  serve_all w [] = w
  serve_all w (r ∷ rs) = serve_all (serve w r) rs

-- The request is no DeletePCAgent.
abbrev pub IsNoDeletion : Request → Type 0
IsNoDeletion (delete_pc_agent user_id id) = ⊥
IsNoDeletion r = Unit
