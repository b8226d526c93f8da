-- ===== src/Notification.antt =====
-- internal/notification: sender.go and mock_sender.go.
pub mod Fcm
use datn_backend.Prelude.{ℕ, Bool, Option, List, [], length}
use datn_backend.Text.{Text}
use datn_backend.Domain.Alerts.{Alert}
use datn_backend.Domain.Pairing.{MobileDevice}

pub record FcmError : Type 0 where
  pub status_code : ℕ
  pub body : Text
  pub error_code : Text

-- An error that is no *FCMError has a message only.
pub data NotificationError : Type 0 where
  fcm : FcmError → NotificationError
  other : Text → NotificationError

-- errors.Join: the errors that are joined, none for nil.
abbrev pub Joined : Type 0
Joined = List NotificationError

pub record SendFailure : Type 0 where
  pub token : Text
  pub error : Option NotificationError
  pub invalid_token : Bool

pub record SendReport : Type 0 where
  pub targeted : ℕ
  pub sent : ℕ
  pub failed : List SendFailure

-- The interface Sender: the report and the error of SendAlert at a step of the run.
abbrev pub Sender : Type 0
Sender = ℕ → Alert → List MobileDevice → SendReport × Joined

unfoldable pub mock_sender : Sender
mock_sender n alert devices =
    (record { targeted = length devices; sent = length devices; failed = [] }, [])
