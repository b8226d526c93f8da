-- ===== src/Auth/Sessions/Rotation.antt =====
-- Refresh replaces the presented token, once.
use datn_backend.Prelude.{◌+◌, ◌≤◌, ◌≡◌, inl, inr, true, none, some, arith, Option-cases}
use datn_backend.Prelude.Tables.{find}
use datn_backend.Text.{Text, trim_space}
use datn_backend.Domain.{RefreshToken}
use datn_backend.Domain.Sessions.{AuthTokens}
use datn_backend.Errors.{ok, is_ok}
use datn_backend.World.{World, Env}
use datn_backend.Repo.RefreshTokens.{has_hash, replace}
use datn_backend.Auth.Setup.{AuthUseCase, new_refresh_token}
use datn_backend.Auth.Sessions.{rotate, refresh}

module _ (env : Env) (uc : AuthUseCase) where
  -- The world and the new token with which `rotate` calls Replace.
  abbrev pub before_replace : World → World
  before_replace w = record w { steps = w.steps + 1 + 1 + 1 + 1 + 1 + 1 }

  abbrev pub next_token : RefreshToken → World → Text → RefreshToken
  next_token stored w refresh_token =
      new_refresh_token stored.user_id (env.sha256_hex refresh_token)
        (env.clock (w.steps + 1 + 1 + 1 + 1 + 1) + uc.refresh_token_ttl)

  pub rotate_replaces :
      (token_hash : Text) (stored : RefreshToken) (w : World) (tokens : AuthTokens)
      → (rotate env uc token_hash stored w).0 ≡ ok tokens
      → (stored.revoked_at ≡ none)
        × (env.clock w.steps ≤ stored.expires_at)
        × (is_ok
              (replace env token_hash
                (next_token stored w tokens.refresh_token)
                (before_replace w)).0
            ≡ true)
        × ((rotate env uc token_hash stored w).1.db
            ≡ (replace env token_hash
                (next_token stored w tokens.refresh_token)
                (before_replace w)).1.db)
  unfolding rotate
  rotate_replaces token_hash stored w tokens h =
      (ground arith, ground arith, ground arith, ground arith)

  pub refresh_rotates :
      (input : Text) (w : World) (tokens : AuthTokens)
      → (refresh env uc input w).0 ≡ ok tokens
      → (stored : RefreshToken) × (find
            (has_hash (env.sha256_hex (trim_space input)))
            w.refresh_tokens
          ≡ some stored)
        × (refresh env uc input w
            ≡ rotate env uc
                (env.sha256_hex (trim_space input))
                stored
                (record w { steps = w.steps + 1 }))
  unfolding refresh
  refresh_rotates input w tokens h =
      elim (Option-cases (find (has_hash (env.sha256_hex (trim_space input))) w.refresh_tokens)) [
        | inl e ↦ ground arith
        | inr (stored, e) ↦ (stored, e, ground arith)
      ]
