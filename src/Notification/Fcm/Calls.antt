-- ===== src/Notification/Fcm/Calls.antt =====
-- What the sender of fcm_sender.go asks of the outside, and the calls of its methods.
use datn_backend.Prelude.{ℕ, Bool, true, false, not, ◌||◌, Option, none, some, List, [], ltb, leb}
use datn_backend.Prelude.Int.{ℤ}
use datn_backend.Text.{Text, utf8, trim_space}
use datn_backend.Domain.{Time}
use datn_backend.Json.{Json}
use datn_backend.Notification.{NotificationError, other}

pub record HttpRequest : Type 0 where
  pub url : Text
  pub authorization : Text
  pub content_type : Text
  pub body : Text

pub record HttpResponse : Type 0 where
  pub status_code : ℕ
  pub body : Text

pub record ServiceAccount : Type 0 where
  pub project_id : Text
  pub client_email : Text
  pub private_key : Text
  pub token_uri : Text

pub record TokenResponse : Type 0 where
  pub access_token : Text
  pub expires_in : ℤ
  pub error : Text
  pub description : Text

pub data PrivateKey : Type 0 where
  rsa_key other_key : Text → PrivateKey

pub record OauthToken : Type 0 where
  pub access_token : Text
  pub expiry : Time

-- The effects are numbered as those of the database are. `none` is an error; a decoder reads JSON
-- into the struct of its use.
pub record Google : Type 0 where
  pub clock : ℕ → Time
  pub read_file : ℕ → Text → Option Text
  pub http_do : ℕ → HttpRequest → Option HttpResponse
  pub marshal : Json → Text
  pub decode_service_account : Text → Option ServiceAccount
  pub decode_token_response : Text → Option TokenResponse
  pub decode_error_codes : Text → Option (List Text)
  pub format_rfc3339 : Time → Text
  -- url.PathEscape, and url.Values.Encode of the grant type and the assertion.
  pub path_escape : Text → Text
  pub encode_form : Text → Text → Text
  -- encoding/pem, crypto/x509, crypto/sha256 and crypto/rsa.
  pub pem_decode : Text → Option Text
  pub parse_pkcs8_private_key : Text → Option PrivateKey
  pub sha256 : Text → Text
  pub sign_pkcs1v15 : ℕ → Text → Text → Option Text

-- The fields that do not change, and those that the mutex guards.
pub record FcmSender : Type 0 where
  pub service_account_file : Text
  pub project_id : Text
  pub service_account : Option ServiceAccount
  pub token : OauthToken

unfoldable pub new_fcm_sender : Text → Text → FcmSender
new_fcm_sender service_account_file project_id = record {
  service_account_file = trim_space service_account_file;
  project_id = trim_space project_id;
  service_account = none;
  token = record { access_token = []; expiry = 0 };
}

-- A call of a method: the sender and the effects so far.
pub record Run : Type 0 where
  pub sender : FcmSender
  pub steps : ℕ

pub data Outcome (A : Type 0) : Type 0 where
  done : A → Outcome A
  failed : NotificationError → Outcome A

abbrev pub Call : Type 0 → Type 0
Call A = Run → Outcome A × Run

abbrev after : {A B : Type 0} → (A → Call B) → Outcome A × Run → Outcome B × Run
after f (done a, run) = f a run
after f (failed e, run) = (failed e, run)

infixl 10 ◌>>=◌ ◌>>◌
abbrev pub ◌>>=◌ : {A B : Type 0} → Call A → (A → Call B) → Call B
◌>>=◌ m f run = after f (m run)

abbrev pub ◌>>◌ : {A B : Type 0} → Call A → Call B → Call B
m >> n = m >>= λ _. n

abbrev pub give : {A : Type 0} → A → Call A
give a run = (done a, run)

abbrev pub fail : {A : Type 0} → NotificationError → Call A
fail e run = (failed e, run)

abbrev pub or_fail : {A : Type 0} → Text → Option A → Call A
or_fail message none = fail (other message)
or_fail message (some a) = give a

abbrev pub require : Bool → Text → Call (Unit {0})
require true message = give tt
require false message = fail (other message)

abbrev pub is_success : ℕ → Bool
is_success status_code = not (ltb status_code 200 || leb 300 status_code)

abbrev pub firebase_messaging_scope : Text
firebase_messaging_scope = utf8 "https://www.googleapis.com/auth/firebase.messaging"

abbrev pub grant_type : Text
grant_type = utf8 "urn:ietf:params:oauth:grant-type:jwt-bearer"
