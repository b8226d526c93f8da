-- ===== src/Repo/RefreshTokens/Transactions.antt =====
-- Replace and CompleteRegister change both tables of their transaction, or nothing.
use datn_backend.Prelude.{ℕ, ◌+◌, ◌≡◌, true, false, [], ◌∷◌, ◌++◌, arith, inl, inr, Bool-cases}
use datn_backend.Prelude.Tables.{any, update}
use datn_backend.Text.{Text}
use datn_backend.Domain.{RefreshToken}
use datn_backend.Errors.{Error, ok, err}
use datn_backend.World.{World, Db, Env}
use datn_backend.Repo.Users
use datn_backend.Repo.RefreshTokens.{
  is_live_hash, has_hash, revoked, token_row, token_conflicts, insert_token, replace,
}

-- An insertion appends a row or changes nothing.
pub insert_token_cases :
    (P : Db → Type 0) (env : Env) (token : RefreshToken) (n : ℕ) (db : Db)
    → P db
    → ((row : RefreshToken) → P (record db { refresh_tokens = db.refresh_tokens ++ row ∷ [] }))
    → P (insert_token env token n db).1
unfolding insert_token
insert_token_cases P env token n db same added =
    let row = token_row (env.gen_random_uuid n) (env.db_clock n) token in
    elim (Bool-cases (token_conflicts row db.refresh_tokens)) [
      | inl e ↦ rw e same
      | inr e ↦ elim (Bool-cases (any (Users.has_id row.user_id) db.users)) [
        | inl f ↦ rw (e, f) (added row)
        | inr f ↦ rw (e, f) same
      ]
    ]

module _ (env : Env) (token_hash : Text) (token : RefreshToken) (w : World) where
  abbrev pub replaced_at : ℕ
  replaced_at = env.db_clock (w.steps + 1)

  -- The row that a successful Replace inserts.
  abbrev pub replacement : RefreshToken
  replacement =
      token_row (env.gen_random_uuid (w.steps + 1 + 1)) (env.db_clock (w.steps + 1 + 1)) token

  -- On success the live token with the hash was revoked and the next one inserted.
  pub replace_ok :
      (next : RefreshToken)
      → (replace env token_hash token w).0 ≡ ok next
      → (any (is_live_hash token_hash) w.refresh_tokens ≡ true)
        × (any (Users.has_id token.user_id) w.users ≡ true)
        × (any
              (has_hash token.token_hash)
              (update (is_live_hash token_hash) (revoked replaced_at) w.refresh_tokens)
            ≡ false)
        × ((replace env token_hash token w).1.db ≡ record w.db {
          refresh_tokens =
              update (is_live_hash token_hash) (revoked replaced_at) w.refresh_tokens
              ++ replacement ∷ [];
        })
  unfolding replace
  replace_ok next h = ground arith

  -- On failure nothing is written.
  pub replace_err :
      (e : Error)
      → (replace env token_hash token w).0 ≡ err e
      → (replace env token_hash token w).1.db ≡ w.db
  unfolding replace
  replace_err e h = ground arith
