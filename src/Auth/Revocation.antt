-- ===== src/Auth/Revocation.antt =====
-- A refresh token that has been revoked is never accepted again, whatever requests follow.
use datn_backend.Prelude.{
  ◌+◌, ◌≡◌, ◌≢◌, refl, ap, subst, ◌∙◌, sym, Bool, true, some, List, [], ◌∷◌, ◌++◌, arith,
  if◌then◌else◌, Bool-cases, inl, inr,
}
use datn_backend.Prelude.Tables.{
  find, find_sound, find_of_any, any, update, find-update, find-append_some,
}
use datn_backend.Text.{Text, text_eq, trim_space}
use datn_backend.Domain.{Time, RefreshToken, is_some}
use datn_backend.Domain.Sessions.{AuthTokens}
use datn_backend.Errors.{Result, ok, ok_of_is_ok}
use datn_backend.World.{World, Db, Env}
use datn_backend.Repo.RefreshTokens.{has_hash, is_live_hash, is_live_of, revoked}
use datn_backend.Repo.RefreshTokens.Transactions.{replace_ok}
use datn_backend.Auth.Setup.{AuthUseCase}
use datn_backend.Auth.Sessions.{refresh, logout, logout_all}
use datn_backend.Auth.Sessions.Rotation.{rotate_replaces, refresh_rotates}
use datn_backend.Auth.Requests.{Request, serve_all}
use datn_backend.Auth.Requests.Invariants.{serve_all-Keeps}
use datn_backend.Auth.Requests.Statements.{Rules}

any-has_hash :
    (token_hash : Text) (tokens : List RefreshToken)
    → any (is_live_hash token_hash) tokens ≡ true
    → any (has_hash token_hash) tokens ≡ true
unfolding any
any-has_hash token_hash [] h = h
any-has_hash token_hash (t ∷ ts) h = ground (arith, any-has_hash token_hash ts)

-- The token with the hash is stored and revoked.
pub record IsRevoked (token_hash : Text) (tokens : List RefreshToken) : Type 0 where
  pub token : RefreshToken
  pub stored : find (has_hash token_hash) tokens ≡ some token
  pub dead : is_some token.revoked_at ≡ true

is_live_of_update :
    (user_id : Text) (at : Time) (token : RefreshToken)
    → text_eq token.user_id user_id ≡ true
    → is_some (if is_live_of user_id token then revoked at token else token).revoked_at ≡ true
is_live_of_update user_id at token same = ground arith

module _ (token_hash : Text) where
  update-IsRevoked :
      (p : RefreshToken → Bool) (at : Time) (tokens : List RefreshToken)
      → IsRevoked token_hash tokens
      → IsRevoked token_hash (update p (revoked at) tokens)
  update-IsRevoked p at tokens h = record {
    token = if p h.token then revoked at h.token else h.token;
    stored = find-update (has_hash token_hash) p (revoked at) (λ x. refl) tokens h.token h.stored;
    dead = elim (Bool-cases (p h.token)) [ inl e ↦ rw e refl | inr e ↦ rw e h.dead ];
  }

  append-IsRevoked :
      (row : RefreshToken) (tokens : List RefreshToken)
      → IsRevoked token_hash tokens
      → IsRevoked token_hash (tokens ++ row ∷ [])
  append-IsRevoked row tokens h = record {
    token = h.token;
    stored = find-append_some (has_hash token_hash) tokens (row ∷ []) h.token h.stored;
    dead = h.dead;
  }

  pub IsRevoked-Rules : Rules (λ db. IsRevoked token_hash db.refresh_tokens)
  IsRevoked-Rules = record {
    user_rows = λ rows db h. h;
    otp_rows = λ rows db h. h;
    token_insertion = λ row db h. append-IsRevoked row db.refresh_tokens h;
    token_revocation = λ p at db h. update-IsRevoked p at db.refresh_tokens h;
  }

  -- Every sequence of requests leaves a revoked token revoked.
  serve_all-IsRevoked :
      (env : Env) (uc : AuthUseCase) (w : World) (rs : List Request)
      → IsRevoked token_hash w.refresh_tokens
      → IsRevoked token_hash (serve_all env uc w rs).refresh_tokens
  serve_all-IsRevoked env uc w rs h = serve_all-Keeps env IsRevoked-Rules uc w rs h

  -- The stored token, once it is updated as Replace, RevokeByHash and RevokeAllByUserID do.
  revoked-IsRevoked :
      (at : Time) (tokens : List RefreshToken) (stored : RefreshToken)
      → find (has_hash token_hash) tokens ≡ some stored
      → IsRevoked token_hash (update (is_live_hash token_hash) (revoked at) tokens)
  revoked-IsRevoked at tokens stored found = record {
    token = if is_live_hash token_hash stored then revoked at stored else stored;
    stored =
        find-update (has_hash token_hash) (is_live_hash token_hash) (revoked at) (λ x. refl) tokens
          stored found;
    dead = (let h = find_sound (has_hash token_hash) tokens stored found in ground arith);
  }

module _ (env : Env) (uc : AuthUseCase) where
  -- A revoked token is refused.
  pub refresh_refuses :
      (input : Text) (w : World) (tokens : AuthTokens)
      → IsRevoked (env.sha256_hex (trim_space input)) w.refresh_tokens
      → (refresh env uc input w).0 ≢ ok tokens
  refresh_refuses input w tokens h e =
      let (stored, found, same) = refresh_rotates env uc input w tokens e in
      let live = (rotate_replaces env uc _ stored _ tokens (rw same at e)).0 in
      cc (found, h.stored, h.dead, live)

  pub refresh-IsRevoked :
      (input : Text) (w : World) (tokens : AuthTokens)
      → (refresh env uc input w).0 ≡ ok tokens
      → IsRevoked (env.sha256_hex (trim_space input)) (refresh env uc input w).1.refresh_tokens
  refresh-IsRevoked input w tokens e =
      let (stored, found, same) = refresh_rotates env uc input w tokens e in
      let token_hash = env.sha256_hex (trim_space input) in
      let (_, _, replaced, after) =
        rotate_replaces env uc token_hash stored (record w { steps = w.steps + 1 }) tokens
          (rw same at e) in
      let (next, done) = ok_of_is_ok _ replaced in
      let (_, _, _, wrote) = replace_ok env token_hash _ _ next done in
      let step =
        append-IsRevoked token_hash _ _
          (revoked-IsRevoked token_hash _ w.refresh_tokens stored found) in
      subst (λ (db : Db). IsRevoked token_hash db.refresh_tokens)
        (sym (ap (λ (x : Result AuthTokens × World). x.1.db) same ∙ after ∙ wrote)) step

  -- A presented token that a refresh replaced is refused by every later refresh, whatever
  -- requests come between.
  pub refresh_once :
      (input : Text) (w : World) (tokens later : AuthTokens) (rs : List Request)
      → (refresh env uc input w).0 ≡ ok tokens
      → (refresh env uc input (serve_all env uc (refresh env uc input w).1 rs)).0 ≢ ok later
  refresh_once input w tokens later rs e = refresh_refuses input _ later (
      serve_all-IsRevoked (env.sha256_hex (trim_space input)) env uc _ rs
        (refresh-IsRevoked input w tokens e))

  pub logout-IsRevoked :
      (input : Text) (w : World)
      → (logout env input w).0 ≡ ok tt
      → IsRevoked (env.sha256_hex (trim_space input)) (logout env input w).1.refresh_tokens
  unfolding logout
  logout-IsRevoked input w e =
      let token_hash = env.sha256_hex (trim_space input) in
      let live : any (is_live_hash token_hash) w.refresh_tokens ≡ true = ground arith in
      let (stored, found) = find_of_any _ _ (any-has_hash token_hash w.refresh_tokens live) in
      let wrote : (logout env input w).1.refresh_tokens
          ≡ update (is_live_hash token_hash) (revoked (env.db_clock w.steps)) w.refresh_tokens =
        ground arith in
      subst (IsRevoked token_hash) (sym wrote)
        (revoked-IsRevoked token_hash _ w.refresh_tokens stored found)

  -- A token that a logout revoked is refused by every later refresh, whatever requests come
  -- between.
  pub logout_once :
      (input : Text) (w : World) (later : AuthTokens) (rs : List Request)
      → (logout env input w).0 ≡ ok tt
      → (refresh env uc input (serve_all env uc (logout env input w).1 rs)).0 ≢ ok later
  logout_once input w later rs e = refresh_refuses input _ later (
      serve_all-IsRevoked (env.sha256_hex (trim_space input)) env uc _ rs
        (logout-IsRevoked input w e))

  -- After a logout from all devices, every stored token of the user is refused by every later
  -- refresh, whatever requests come between.
  pub logout_all_once :
      (user_input input : Text) (w : World) (stored : RefreshToken) (later : AuthTokens)
      (rs : List Request)
      → (logout_all env user_input w).0 ≡ ok tt
      → find (has_hash (env.sha256_hex (trim_space input))) w.refresh_tokens ≡ some stored
      → text_eq stored.user_id (trim_space user_input) ≡ true
      → (refresh env uc input (serve_all env uc (logout_all env user_input w).1 rs)).0 ≢ ok later
  unfolding logout_all
  logout_all_once user_input input w stored later rs e found owned =
      let token_hash = env.sha256_hex (trim_space input) in
      let user_id = trim_space user_input in
      let p = is_live_of user_id in
      let at = env.db_clock w.steps in
      let wrote : (logout_all env user_input w).1.refresh_tokens
          ≡ update p (revoked at) w.refresh_tokens =
        ground arith in
      let dead : IsRevoked token_hash (update p (revoked at) w.refresh_tokens) = record {
        token = if p stored then revoked at stored else stored;
        stored =
            find-update (has_hash token_hash) p (revoked at) (λ x. refl) w.refresh_tokens stored
              found;
        dead = is_live_of_update user_id at stored owned;
      } in
      refresh_refuses input _ later
        (serve_all-IsRevoked token_hash env uc _ rs (subst (IsRevoked token_hash) (sym wrote) dead))
