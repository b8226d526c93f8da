-- ===== src/Tests/Routes.antt =====
-- The whole server at concrete inputs.
use datn_backend.Http.AuthHandler.{handle_logout, handle_refresh}
use datn_backend.Text.Base64.{encode}
use datn_backend.Prelude.Tables.{update, any, find}
use datn_backend.Repo.RefreshTokens.{replace}
use datn_backend.Auth.Sessions.{rotate}
use datn_backend.Prelude.{◌≡◌, ◌≢◌, refl, false, some}
use datn_backend.Text.{trim_space}
use datn_backend.World.{World}
use datn_backend.Http.Json.{Codec}
use datn_backend.Http.Router.{Route, serve}
use datn_backend.Server.Steps.{Process, Step, here, next}
use datn_backend.Server.Sessions.{refresh_route_once, logout_route_once}
use datn_backend.Tests.Environment.{env}
use datn_backend.Tests.Auth.{uc}
use datn_backend.Tests.Server.{process, login_request}
use datn_backend.Tests.Sessions as Sessions

-- Every body carries the refresh token.
abbrev codec : Codec
codec = record process.codec {
  decode =
      λ texts flags body. some (record { text = λ name. Sessions.input; flag = λ name. false });
}

abbrev server : Process
server = record process { codec = codec }

abbrev refreshed : World
refreshed = (serve env codec uc Route.refresh login_request Sessions.w).1

refreshes : (serve env codec uc Route.refresh login_request Sessions.w).0.status ≡ 200
unfolding serve handle_refresh trim_space find rotate replace any update encode
refreshes = refl

-- The attacker tries the token, and tries it again later.
abbrev tried : World
tried = (serve env codec uc Route.refresh login_request refreshed).1

refresh_route_once_example :
    (serve env codec uc Route.refresh login_request (record tried { steps = 90 })).0.status ≢ 200
refresh_route_once_example =
    refresh_route_once server Sessions.w login_request refreshes
      (next (next here (Step.http refreshed Route.refresh login_request)) (Step.elapse tried 90))

abbrev logged_out : World
logged_out = (serve env codec uc Route.logout login_request Sessions.w).1

logs_out : (serve env codec uc Route.logout login_request Sessions.w).0.status ≡ 200
unfolding serve handle_logout trim_space any
logs_out = refl

logout_route_once_example :
    (serve env codec uc Route.refresh login_request (record logged_out { steps = 90 })).0.status
    ≢ 200
logout_route_once_example =
    logout_route_once server Sessions.w login_request logs_out
      (next here (Step.elapse logged_out 90))
