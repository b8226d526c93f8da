-- ===== src/Alerts/Delivery.antt =====
-- The notification of an alert in internal/usecase/alert_usecase.go, and the removal of the tokens
-- that FCM no longer knows.
use datn_backend.Prelude.{
  ℕ, ◌+◌, Bool, true, false, not, ◌||◌, Option, none, some, List, [], ◌∷◌, length, if◌then◌else◌,
}
use datn_backend.Prelude.Tables.{any, select}
use datn_backend.Text.{Text, trim_space, is_empty, text_eq}
use datn_backend.Domain.Alerts.{Alert}
use datn_backend.Domain.Pairing.{MobileDevice}
use datn_backend.Errors.{Result, ok, err}
use datn_backend.World.{Env}
use datn_backend.Action.{Action, pure, inspect, ◌>>=◌}
use datn_backend.Notification.{Sender, SendReport, SendFailure, NotificationError, Joined}
use datn_backend.Repo.MobileDevices

-- What CreateAlertFromAgent returns where it returns an alert: the error beside it is of the
-- notification, and empty for nil.
pub record Created : Type 0 where
  pub alert : Alert
  pub failure : Joined

abbrev pub without_failure : Alert → Created
without_failure alert = record { alert = alert; failure = [] }

abbrev pub is_nil {ℓ} : {A : Type ℓ} → List A → Bool
is_nil [] = true
is_nil (x ∷ xs) = false

abbrev with_error : Option NotificationError → Joined → Joined
with_error none rest = rest
with_error (some e) rest = e ∷ rest

unfoldable pub notification_failures_error : List SendFailure → Joined
notification_failures_error [] = []
notification_failures_error (failure ∷ failures) =
    with_error failure.error (notification_failures_error failures)

abbrev is_member : Text → List Text → Bool
is_member token tokens = any (text_eq token) tokens

-- The failures that the loop appends to nonInvalidFailures.
abbrev pub is_non_invalid : SendFailure → Bool
is_non_invalid failure = not failure.invalid_token

-- removedTokens after the DELETE.
abbrev pub after_delete : Text → List Text → Result (Unit {0}) → Action (List Text)
after_delete token removed (ok done) = pure (token ∷ removed)
after_delete token removed (err e) = pure removed

module _ (env : Env) where
  -- One round of the loop of cleanupInvalidNotificationTokens.
  unfoldable pub cleanup_token : List Text → SendFailure → Action (List Text)
  unfolding MobileDevices.delete_by_fcm_token any
  cleanup_token removed failure =
      let token = trim_space failure.token in
      if not failure.invalid_token || is_empty token || is_member token removed
      then pure removed
      else inspect (after_delete token removed) (MobileDevices.delete_by_fcm_token env token)

  unfoldable pub cleanup_tokens : List Text → List SendFailure → Action (List Text)
  unfolding cleanup_token
  cleanup_tokens removed [] = pure removed
  cleanup_tokens removed (failure ∷ failures) =
      cleanup_token removed failure >>= λ more. cleanup_tokens more failures

  unfoldable pub cleanup_invalid_notification_tokens :
      List SendFailure → Action (ℕ × List SendFailure)
  unfolding cleanup_tokens
  cleanup_invalid_notification_tokens failures = do
    removed ← cleanup_tokens [] failures
    pure (length removed, select is_non_invalid failures)

  -- SendAlert, as an effect of its own.
  unfoldable pub send_alert : Sender → Alert → List MobileDevice → Action (SendReport × Joined)
  send_alert sender alert devices w =
      (ok (sender w.steps alert devices), record w { steps = w.steps + 1 })

  -- The error that is returned beside the alert.
  abbrev pub failure_of : Joined → SendReport → Joined → Joined
  failure_of non_invalid report error =
      if not (is_nil non_invalid) then non_invalid else if is_nil report.failed then error else []

  unfoldable pub notify : Sender → Alert → List MobileDevice → Action Created
  unfolding cleanup_invalid_notification_tokens send_alert notification_failures_error
  notify sender alert devices = do
    (report, error) ← send_alert sender alert devices
    (removed, non_invalid) ← cleanup_invalid_notification_tokens report.failed
    pure (record {
      alert = alert;
      failure = failure_of (notification_failures_error non_invalid) report error;
    })

  abbrev pub notify_if_any : Option Sender → Alert → List MobileDevice → Action Created
  notify_if_any none alert devices = pure (without_failure alert)
  notify_if_any (some sender) alert [] = pure (without_failure alert)
  notify_if_any (some sender) alert (device ∷ devices) = notify sender alert (device ∷ devices)

  -- What follows the INSERT.
  unfoldable pub deliver : Option Sender → Text → Alert → Action Created
  unfolding MobileDevices.find_by_user_id notify
  deliver notifications user_id alert =
      MobileDevices.find_by_user_id env user_id >>= notify_if_any notifications alert
