-- ===== src/Notification/Fcm/Access.antt =====
-- The access token: accessToken, loadServiceAccount, requestAccessToken and buildJWTAssertion of
-- fcm_sender.go.
use datn_backend.Prelude.{
  ℕ, ◌+◌, ◌*◌, ◌/◌, not, ◌||◌, Option, none, some, [], ◌++◌, ltb, if◌then◌else◌,
}
use datn_backend.Prelude.Int.{ℤ, pos, negsuc}
use datn_backend.Text.{Text, utf8, trim_space, is_empty}
use datn_backend.Text.Base64.{encode}
use datn_backend.Domain.{Time, second, minute, hour}
use datn_backend.Json.{Json, int, obj, field, end, text_field}
use datn_backend.Notification.{other}
use datn_backend.Notification.Fcm.Calls.{
  HttpRequest, HttpResponse, ServiceAccount, PrivateKey, OauthToken, Google, FcmSender, Outcome,
  Call, ◌>>=◌, ◌>>◌, give, fail, or_fail, require, is_success, firebase_messaging_scope, grant_type,
  rsa_key, other_key, done, failed,
}

module _ (google : Google) where
  -- An effect: a value that is asked for with the number of the step.
  abbrev effect : {A : Type 0} → (ℕ → Outcome A) → Call A
  effect ask run = (ask run.steps, record run { steps = run.steps + 1 })

  abbrev answered : {A : Type 0} → Text → Option A → Outcome A
  answered message none = failed (other message)
  answered message (some a) = done a

  unfoldable pub call_http : HttpRequest → Call HttpResponse
  call_http request = effect λ n. answered (utf8 "http") (google.http_do n request)

  unfoldable pub now : Call Time
  now = effect λ n. done (google.clock n)

  get_sender : Call FcmSender
  get_sender run = (done run.sender, run)

  abbrev put_account : ServiceAccount → Call ServiceAccount
  put_account account run =
      (done account, record run { sender = record run.sender { service_account = some account } })

  abbrev put_token : OauthToken → Call (Unit {0})
  put_token token run = (done tt, record run { sender = record run.sender { token = token } })

  abbrev with_default_uri : ServiceAccount → ServiceAccount
  with_default_uri account =
      if is_empty account.token_uri
      then record account { token_uri = utf8 "https://oauth2.googleapis.com/token" }
      else account

  unfoldable pub read_service_account : Text → Call ServiceAccount
  read_service_account file = do
    require (not (is_empty file)) (utf8 "firebase service account file is empty")
    content ← effect (λ n. answered (utf8 "file") (google.read_file n file))
    decoded ← or_fail (utf8 "json") (google.decode_service_account content)
    require
        (not
          (is_empty (trim_space decoded.client_email) || is_empty (trim_space decoded.private_key)))
        (utf8 "firebase service account missing client_email or private_key")
    put_account (with_default_uri decoded)

  abbrev account_or_read : FcmSender → Option ServiceAccount → Call ServiceAccount
  account_or_read s none = read_service_account s.service_account_file
  account_or_read s (some account) = give account

  unfoldable pub load_service_account : Call ServiceAccount
  unfolding read_service_account get_sender
  load_service_account = get_sender >>= λ s. account_or_read s s.service_account

  abbrev rsa_only : PrivateKey → Call Text
  rsa_only (rsa_key key) = give key
  rsa_only (other_key key) = fail (other (utf8 "firebase private key is not RSA"))

  unfoldable pub sign_rs256 : Text → Text → Call Text
  sign_rs256 private_key_pem payload = do
    block ← or_fail (utf8 "invalid firebase private key pem") (google.pem_decode private_key_pem)
    parsed ← or_fail (utf8 "pkcs8") (google.parse_pkcs8_private_key block)
    key ← rsa_only parsed
    effect (λ n. answered (utf8 "rsa") (google.sign_pkcs1v15 n key (google.sha256 payload)))

  -- The claims and the header, whose keys are encoded in their order.
  abbrev claims_of : ServiceAccount → Time → Json
  claims_of account at = obj (
      text_field (utf8 "aud") account.token_uri (
        field (utf8 "exp") (int (pos ((at + hour) / second))) (
          field (utf8 "iat") (int (pos (at / second))) (
            text_field (utf8 "iss") account.client_email
              (text_field (utf8 "scope") firebase_messaging_scope end)))))

  abbrev header_of : Json
  header_of =
      obj (text_field (utf8 "alg") (utf8 "RS256") (text_field (utf8 "typ") (utf8 "JWT") end))

  unfoldable pub build_jwt_assertion : ServiceAccount → Call Text
  unfolding now sign_rs256
  build_jwt_assertion account = do
    at ← now
    let signing_input =
        encode (google.marshal header_of)
        ++ (utf8 "." ++ encode (google.marshal (claims_of account at)))
    signature ← sign_rs256 account.private_key signing_input
    give (signing_input ++ (utf8 "." ++ encode signature))

  -- if response.ExpiresIn <= 0 { response.ExpiresIn = 3600 }
  abbrev lifetime : ℤ → ℕ
  lifetime (pos n) = if ltb 0 n then n else 3600
  lifetime (negsuc n) = 3600

  unfoldable pub request_access_token : Text → Text → Call OauthToken
  unfolding call_http now
  request_access_token token_uri assertion = do
    response ← call_http (record {
      url = token_uri;
      authorization = [];
      content_type = utf8 "application/x-www-form-urlencoded";
      body = google.encode_form grant_type assertion;
    })
    decoded ← or_fail (utf8 "json") (google.decode_token_response response.body)
    require (is_success response.status_code) (utf8 "firebase token request failed")
    require (not (is_empty decoded.access_token))
        (utf8 "firebase token response missing access_token")
    at ← now
    give (record {
      access_token = decoded.access_token;
      expiry = at + lifetime decoded.expires_in * second;
    })

  abbrev account_project : Option ServiceAccount → Text
  account_project none = []
  account_project (some account) = trim_space account.project_id

  unfoldable pub resolved_project_id : FcmSender → Text
  resolved_project_id s =
      if is_empty (trim_space s.project_id)
      then account_project s.service_account
      else trim_space s.project_id

  -- The project of the sender, or of the account.
  abbrev project_of : FcmSender → ServiceAccount → Text
  project_of s account =
      let project_id = trim_space s.project_id in
      if is_empty project_id then trim_space account.project_id else project_id

  unfoldable pub renew_access_token : Call (Text × Text)
  unfolding load_service_account build_jwt_assertion request_access_token get_sender
  renew_access_token = do
    account ← load_service_account
    s ← get_sender
    let project_id = project_of s account
    require (not (is_empty project_id)) (utf8 "firebase project id is empty")
    assertion ← build_jwt_assertion account
    token ← request_access_token account.token_uri assertion
    put_token token
    give (token.access_token, project_id)

  -- time.Now().Before(s.token.Expiry.Add(-1*time.Minute)), where the clock is read only for a token.
  abbrev unless_fresh : FcmSender → Time → Call (Text × Text)
  unless_fresh s at =
      if ltb (at + minute) s.token.expiry
      then give (s.token.access_token, resolved_project_id s)
      else renew_access_token

  unfoldable pub access_token : Call (Text × Text)
  unfolding renew_access_token resolved_project_id now get_sender
  access_token = do
    s ← get_sender
    if is_empty s.token.access_token then renew_access_token else (now >>= unless_fresh s)
