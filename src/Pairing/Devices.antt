-- ===== src/Pairing/Devices.antt =====
-- RegisterMobileDevice.
use datn_backend.Prelude.{◌||◌, not, []}
use datn_backend.Text.{Text, trim_space, to_lower, is_empty}
use datn_backend.Domain.Pairing.{MobileDevice}
use datn_backend.Errors.{usecase, UsecaseError}
use datn_backend.World.{Env}
use datn_backend.Action.{Action, guard, ◌>>◌}
use datn_backend.Repo.MobileDevices

-- The domain.MobileDevice of the request.
abbrev pub new_device : Text → Text → Text → MobileDevice
new_device user_id fcm_token platform = record {
  id = [];
  user_id = user_id;
  fcm_token = fcm_token;
  platform = platform;
}

unfoldable pub register_mobile_device : Env → Text → Text → Text → Action MobileDevice
register_mobile_device env user_input token_input platform_input = do
  let user_id = trim_space user_input
  let fcm_token = trim_space token_input
  let platform = trim_space (to_lower env.lower_unicode platform_input)
  guard (not (is_empty user_id || is_empty fcm_token || is_empty platform))
      (usecase UsecaseError.invalid_input)
  MobileDevices.upsert env (new_device user_id fcm_token platform)
