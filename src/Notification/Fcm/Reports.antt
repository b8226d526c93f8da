-- ===== src/Notification/Fcm/Reports.antt =====
-- What the report of SendAlert says, against the requests that are made for the devices.
use datn_backend.Prelude.{
  ℕ, ◌+◌, ◌≡◌, refl, ap, inl, inr, ◌⊎◌, Bool, true, false, not, some, List, [], ◌∷◌, arith, length,
  map, if◌then◌else◌, Bool-cases,
}
use datn_backend.Prelude.Tables.{select}
use datn_backend.Text.{Text, trim_space, is_empty}
use datn_backend.Domain.Alerts.{Alert}
use datn_backend.Domain.Pairing.{MobileDevice}
use datn_backend.Notification.{NotificationError, SendFailure, SendReport, Joined}
use datn_backend.Notification.Fcm.Calls.{Google, Run, Outcome, done, failed}
use datn_backend.Notification.Fcm.Access.{access_token}
use datn_backend.Notification.Fcm.{
  is_invalid_fcm_token_error, add_outcome, errors_of, send_all, send_to_token, send_with,
  send_alert, empty_report,
}

-- A device whose token is not blank.
abbrev pub is_target : MobileDevice → Bool
is_target device = not (is_empty (trim_space device.fcm_token))

-- A request for a token, with what came of it.
abbrev pub Attempt : Type 0
Attempt = Text × Outcome (Unit {0})

-- How many of these attempts succeeded.
abbrev pub deliveries : List Attempt → ℕ
deliveries [] = 0
deliveries ((token, done sent) ∷ attempts) = deliveries attempts + 1
deliveries ((token, failed e) ∷ attempts) = deliveries attempts

-- The tokens of the others with their errors, in order.
abbrev pub errors : List Attempt → List (Text × NotificationError)
errors [] = []
errors ((token, done sent) ∷ attempts) = errors attempts
errors ((token, failed e) ∷ attempts) = (token, e) ∷ errors attempts

abbrev pub error_of : Text × NotificationError → NotificationError
error_of (token, e) = e

abbrev pub reported : Text × NotificationError → SendFailure
reported (token, e) = record {
  token = token;
  error = some e;
  invalid_token = is_invalid_fcm_token_error e;
}

-- The attempts for the devices that are targets, one after the other, each in the run that the one
-- before it leaves.
unfoldable pub attempts_of : Google → Text → Text → Alert → List MobileDevice → Run → List Attempt
unfolding send_to_token
attempts_of google oauth project_id alert [] run = []
attempts_of google oauth project_id alert (device ∷ devices) run =
    let token = trim_space device.fcm_token in
    let sent = send_to_token google oauth project_id alert token run in
    let skipped = attempts_of google oauth project_id alert devices run in
    let others = attempts_of google oauth project_id alert devices sent.1 in
    if is_target device then (token, sent.0) ∷ others else skipped

-- The report says what came of the attempts for the devices.
pub record IsFaithful (attempts : List Attempt) (devices : List MobileDevice) (report : SendReport)
    : Type 0 where
  pub complete : report.targeted ≡ length (select is_target devices)
  pub balanced : report.targeted ≡ report.sent + length report.failed
  pub addressed : length attempts ≡ report.targeted
  pub delivered : report.sent ≡ deliveries attempts
  pub undelivered : report.failed ≡ map reported (errors attempts)

errors_of-reported :
    (google : Google) (es : List (Text × NotificationError))
    → errors_of google (map reported es) ≡ map error_of es
errors_of-reported google [] = refl
errors_of-reported google ((token, e) ∷ es) = ap (λ rest. e ∷ rest) (errors_of-reported google es)

module _ (google : Google) where
  -- A device that is addressed.
  add-IsFaithful :
      (device : MobileDevice) (devices : List MobileDevice) (token : Text)
      (outcome : Outcome (Unit {0})) (attempts : List Attempt) (report : SendReport)
      → is_empty (trim_space device.fcm_token) ≡ false
      → IsFaithful attempts devices report
      → IsFaithful
          ((token, outcome) ∷ attempts)
          (device ∷ devices)
          (add_outcome google token outcome report)
  unfolding select
  add-IsFaithful device devices token (done sent) attempts report target h = record {
    complete = rw target (omega (arith, h.complete));
    balanced = omega (arith, h.balanced);
    addressed = omega (arith, h.addressed);
    delivered = omega (arith, h.delivered);
    undelivered = h.undelivered;
  }
  add-IsFaithful device devices token (failed e) attempts report target h = record {
    complete = rw target (omega (arith, h.complete));
    balanced = omega (arith, h.balanced);
    addressed = omega (arith, h.addressed);
    delivered = h.delivered;
    undelivered = ap (λ rest. reported (token, e) ∷ rest) h.undelivered;
  }

  skip-IsFaithful :
      (device : MobileDevice) (devices : List MobileDevice) (attempts : List Attempt)
      (report : SendReport)
      → is_empty (trim_space device.fcm_token) ≡ true
      → IsFaithful attempts devices report
      → IsFaithful attempts (device ∷ devices) report
  unfolding select
  skip-IsFaithful device devices attempts report blank h = record {
    complete = rw blank h.complete;
    balanced = h.balanced;
    addressed = h.addressed;
    delivered = h.delivered;
    undelivered = h.undelivered;
  }

  send_all-IsFaithful :
      (oauth project_id : Text) (alert : Alert) (devices : List MobileDevice) (run : Run)
      → IsFaithful
          (attempts_of google oauth project_id alert devices run)
          devices
          (send_all google oauth project_id alert devices run).0
  unfolding send_all select attempts_of
  send_all-IsFaithful oauth project_id alert [] run = record {
    complete = refl;
    balanced = refl;
    addressed = refl;
    delivered = refl;
    undelivered = refl;
  }
  send_all-IsFaithful oauth project_id alert (device ∷ devices) run =
      let token = trim_space device.fcm_token in
      let (outcome, run') = send_to_token google oauth project_id alert token run in
      elim (Bool-cases (is_empty token)) [
        | inl blank ↦ rw blank (
            skip-IsFaithful device devices (attempts_of google oauth project_id alert devices run)
              (send_all google oauth project_id alert devices run).0 blank
              (send_all-IsFaithful oauth project_id alert devices run))
        | inr target ↦ rw target (
            add-IsFaithful device devices token outcome
              (attempts_of google oauth project_id alert devices run')
              (send_all google oauth project_id alert devices run').0 target
              (send_all-IsFaithful oauth project_id alert devices run'))
      ]

  -- The answer of SendAlert where there is no access token, and where there is one.
  abbrev pub Unsent : Outcome (Text × Text) → SendReport × Joined → Type 0
  Unsent access (report, joined) =
      (e : NotificationError) × (access ≡ failed e)
      × (report ≡ empty_report google)
      × (joined ≡ e ∷ [])

  pub record Sent (alert : Alert) (devices : List MobileDevice)
      (access : Outcome (Text × Text) × Run) (answer : SendReport × Joined) : Type 0 where
    pub oauth : Text
    pub project_id : Text
    pub given : access.0 ≡ done (oauth, project_id)
    pub faithful :
        IsFaithful (attempts_of google oauth project_id alert devices access.1) devices answer.0
    pub joined :
        answer.1
        ≡ map error_of (errors (attempts_of google oauth project_id alert devices access.1))

  -- Where the sender has an access token, it makes one request for each device whose token is not
  -- blank, in order, and its report accounts for them: it counts as sent the requests that succeed,
  -- and it lists the others, each with its token and its own error, as a token that is invalid
  -- exactly where that error is an answer of FCM with the code UNREGISTERED, in letters of either
  -- case; the error that it returns joins theirs. Without an access token nothing is addressed.
  pub send_alert-IsFaithful :
      (alert : Alert) (devices : List MobileDevice) (run : Run)
      → Unsent (access_token google run).0 (send_alert google alert devices run).0
        ⊎ Sent alert devices (access_token google run) (send_alert google alert devices run).0
  unfolding send_alert
  send_alert-IsFaithful alert devices run = with_access (access_token google run)
    where
      with_access :
          (r : Outcome (Text × Text) × Run)
          → Unsent r.0 (send_with google alert devices r).0
            ⊎ Sent alert devices r (send_with google alert devices r).0
      with_access (failed e, v) = inl (e, refl, refl, refl)
      with_access (done (oauth, project_id), v) =
          let h = send_all-IsFaithful oauth project_id alert devices v in
          inr (record {
            oauth = oauth;
            project_id = project_id;
            given = refl;
            faithful = h;
            joined = rw h.undelivered (
                errors_of-reported google
                  (errors (attempts_of google oauth project_id alert devices v)));
          })
