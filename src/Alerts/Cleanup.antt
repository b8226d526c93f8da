-- ===== src/Alerts/Cleanup.antt =====
-- The loop of cleanupInvalidNotificationTokens against one DELETE.
use datn_backend.Prelude.{
  ℕ, ◌+◌, ◌≡◌, refl, ap, ◌∙◌, inl, inr, Bool, true, false, not, ◌&&◌, List, [], ◌∷◌, arith,
  Bool-cases, length,
}
use datn_backend.Prelude.Tables.{
  any, delete, select, delete-delete, delete_comm, delete-delete_self,
}
use datn_backend.Text.{Text, trim_space, is_empty, text_eq, text_eq_iff}
use datn_backend.Domain.Pairing.{MobileDevice}
use datn_backend.Errors.{ok}
use datn_backend.World.{World, Env}
use datn_backend.Action.{statement}
use datn_backend.Notification.{SendFailure}
use datn_backend.Repo.MobileDevices.{has_token, delete_by_fcm_token}
use datn_backend.Alerts.Delivery.{
  is_non_invalid, cleanup_token, cleanup_tokens, cleanup_invalid_notification_tokens,
}

-- The failure says that the device's token is invalid.
abbrev pub reports : MobileDevice → SendFailure → Bool
reports device failure =
    failure.invalid_token
    && not (is_empty (trim_space failure.token))
    && has_token (trim_space failure.token) device

abbrev pub is_reported : List SendFailure → MobileDevice → Bool
is_reported failures device = any (reports device) failures

-- No device has one of the tokens.
abbrev Gone : List Text → List MobileDevice → Type 0
Gone removed rows =
    (token : Text) → any (text_eq token) removed ≡ true → delete (has_token token) rows ≡ rows

delete_none : (xs : List MobileDevice) → delete (λ x. false) xs ≡ xs
unfolding delete
delete_none [] = refl
delete_none (x ∷ xs) = ap (λ t. x ∷ t) (delete_none xs)

Gone-delete :
    (token : Text) (removed : List Text) (rows : List MobileDevice)
    → Gone removed rows
    → Gone (token ∷ removed) (delete (has_token token) rows)
unfolding any
Gone-delete token removed rows gone other h = elim (Bool-cases (text_eq other token)) [
  | inl e ↦
      (let same : other ≡ token = (text_eq_iff other token).0 e in
        rw same (delete-delete_self (has_token token) rows))
  | inr e ↦
      delete_comm (has_token other) (has_token token) rows
      ∙ ap (delete (has_token token)) (gone other (ground arith))
]

module _ (env : Env) (works : (n : ℕ) → env.db_fails n ≡ false) where
  -- The rows that a round leaves, and the tokens that it adds.
  record Round (removed : List Text) (failure : SendFailure) (w : World) : Type 0 where
    more : List Text
    steps : ℕ
    ran : cleanup_token env removed failure w ≡ (
      ok more,
      record {
        db = record w.db { mobile_devices = delete (λ d. reports d failure) w.mobile_devices };
        steps = steps;
      },
    )
    gone : Gone more (delete (λ d. reports d failure) w.mobile_devices)

  -- Nothing is reported: the round leaves the rows.
  idle :
      (removed : List Text) (failure : SendFailure) (w : World)
      → cleanup_token env removed failure w ≡ (ok removed, w)
      → delete (λ d. reports d failure) w.mobile_devices ≡ w.mobile_devices
      → Gone removed w.mobile_devices
      → Round removed failure w
  idle removed failure w ran same gone = record {
    more = removed;
    steps = w.steps;
    ran = rw same ran;
    gone = rw same gone;
  }

  round :
      (removed : List Text) (failure : SendFailure) (w : World)
      → Gone removed w.mobile_devices
      → Round removed failure w
  unfolding cleanup_token delete_by_fcm_token statement
  round removed failure w gone =
      let token = trim_space failure.token in
      elim (Bool-cases failure.invalid_token) [
        | inr valid ↦
            idle removed failure w (rw valid refl) (rw valid (delete_none w.mobile_devices)) gone
        | inl invalid ↦ elim (Bool-cases (is_empty token)) [
          | inl e ↦
              idle removed failure w (rw (invalid, e) refl)
                (rw (invalid, e) (delete_none w.mobile_devices)) gone
          | inr e ↦ elim (Bool-cases (any (text_eq token) removed)) [
            | inl old ↦
                idle removed failure w (rw (invalid, e, old) refl)
                  (rw (invalid, e) (gone token old)) gone
            | inr new ↦ record {
              more = token ∷ removed;
              steps = w.steps + 1;
              ran = rw (invalid, e, new, works w.steps) refl;
              gone = rw (invalid, e) (Gone-delete token removed w.mobile_devices gone);
            }
          ]
        ]
      ]

  -- The rows that the loop leaves.
  record Cleaned (removed : List Text) (failures : List SendFailure) (w : World) : Type 0 where
    tokens : List Text
    steps : ℕ
    ran : cleanup_tokens env removed failures w ≡ (
      ok tokens,
      record {
        db = record w.db { mobile_devices = delete (is_reported failures) w.mobile_devices };
        steps = steps;
      },
    )

  cleaned :
      (removed : List Text) (failures : List SendFailure) (w : World)
      → Gone removed w.mobile_devices
      → Cleaned removed failures w
  unfolding cleanup_tokens any
  cleaned removed [] w gone = record {
    tokens = removed;
    steps = w.steps;
    ran = rw (delete_none w.mobile_devices) refl;
  }
  cleaned removed (failure ∷ failures) w gone =
      let r = round removed failure w gone in
      let v : World = record {
        db = record w.db { mobile_devices = delete (λ d. reports d failure) w.mobile_devices };
        steps = r.steps;
      } in
      let rest = cleaned r.more failures v r.gone in
      record {
        tokens = rest.tokens;
        steps = rest.steps;
        ran = rw r.ran (
            rest.ran
            ∙ rw (delete-delete (is_reported failures) (λ d. reports d failure) w.mobile_devices)
                refl);
      }

  -- Where the statements succeed, the loop over the failures, which skips the tokens that it has
  -- removed before, is one DELETE of the devices whose token a failure reports as invalid: the
  -- other devices and the other tables are left as they were, and the failures that it hands back
  -- are those that report no invalid token, in their order.
  pub cleanup-eq-delete :
      (failures : List SendFailure) (w : World)
      → (count : ℕ) × (steps : ℕ) × (cleanup_invalid_notification_tokens env failures w ≡ (
        ok (count, select is_non_invalid failures),
        record {
          db = record w.db { mobile_devices = delete (is_reported failures) w.mobile_devices };
          steps = steps;
        },
      ))
  unfolding cleanup_invalid_notification_tokens any
  cleanup-eq-delete failures w =
      let c = cleaned [] failures w (λ token h. absurd (ground arith)) in
      (length c.tokens, c.steps, rw c.ran refl)
