-- ===== src/Auth/Requests.antt =====
-- The authentication requests, one after the other, as the routes of
-- internal/delivery/http/router/router.go hand them to the use case.
pub mod Statements
pub mod Invariants
use datn_backend.Prelude.{List, [], ◌∷◌}
use datn_backend.Text.{Text}
use datn_backend.World.{World, Env}
use datn_backend.Auth.Setup.{AuthUseCase}
use datn_backend.Auth.Register
use datn_backend.Auth.Sessions

pub data Request : Type 0 where
  request_register_otp : Text → Request
  verify_register_otp login link_email : Text → Text → Request
  complete_register : Text → Text → Text → Request
  refresh logout logout_all : Text → Request

module _ (env : Env) (uc : AuthUseCase) where
  -- The world that a request leaves, whatever its answer.
  unfoldable pub serve : World → Request → World
  serve w (request_register_otp phone_number) = (Register.request_register_otp env phone_number w).1
  serve w (verify_register_otp phone_number otp) =
      (Register.verify_register_otp env uc phone_number otp w).1
  serve w (complete_register phone_number full_name password) =
      (Register.complete_register env uc phone_number full_name password w).1
  serve w (login phone_number password) = (Sessions.login env uc phone_number password w).1
  serve w (refresh token) = (Sessions.refresh env uc token w).1
  serve w (logout token) = (Sessions.logout env token w).1
  serve w (logout_all user_id) = (Sessions.logout_all env user_id w).1
  serve w (link_email user_id email) = (Sessions.link_email env user_id email w).1

  unfoldable pub serve_all : World → List Request → World
  unfolding serve
  serve_all w [] = w
  serve_all w (r ∷ rs) = serve_all (serve w r) rs
