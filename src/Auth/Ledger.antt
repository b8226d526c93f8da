-- ===== src/Auth/Ledger.antt =====
-- What auth_usecase.go promises of refresh tokens: a ledger that is only added to, and whose entries
-- are revoked for good.
use datn_backend.Prelude.{
  ◌≡◌, refl, sym, subst, ◌⊎◌, inl, inr, Bool, false, not, List, [], ◌∷◌, ◌++◌, map, Bool-cases,
}
use datn_backend.Prelude.Tables.{update}
use datn_backend.Text.{Text}
use datn_backend.Domain.{Time, RefreshToken, is_some}
use datn_backend.Repo.RefreshTokens.{revoked}
use datn_backend.Auth.Requests.Statements.{Rules}

pub record Entry : Type 0 where
  pub token_hash : Text
  pub user_id : Text
  pub expires_at : Time
  pub live : Bool

abbrev pub Ledger : Type 0
Ledger = List Entry

-- Each entry stays as it is, or loses its life.
abbrev pub IsRevocation : Ledger → Ledger → Type 0
IsRevocation [] [] = Unit
IsRevocation [] (y ∷ ys) = ⊥
IsRevocation (x ∷ xs) [] = ⊥
IsRevocation (x ∷ xs) (y ∷ ys) = ((y ≡ x) ⊎ (y ≡ record x { live = false })) × IsRevocation xs ys

-- The abstract machine: a new entry at the end, or a revocation.
pub data Run (xs : Ledger) : Ledger → Type 0 where
  rest : Run xs xs
  issue : {ys : Ledger} → Run xs ys → (entry : Entry) → Run xs (ys ++ entry ∷ [])
  revoke : {ys : Ledger} → Run xs ys → (zs : Ledger) → IsRevocation ys zs → Run xs zs

-- The ledger of a table: it forgets the identifiers and the instants of creation and revocation.
abbrev pub entry_of : RefreshToken → Entry
entry_of token = record {
  token_hash = token.token_hash;
  user_id = token.user_id;
  expires_at = token.expires_at;
  live = not (is_some token.revoked_at);
}

abbrev pub ledger_of : List RefreshToken → Ledger
ledger_of = map entry_of

ledger_of-append :
    (row : RefreshToken) (tokens : List RefreshToken)
    → ledger_of (tokens ++ row ∷ []) ≡ ledger_of tokens ++ entry_of row ∷ []
ledger_of-append row [] = refl
ledger_of-append row (t ∷ ts) = rw (ledger_of-append row ts) refl

update-IsRevocation :
    (p : RefreshToken → Bool) (at : Time) (tokens : List RefreshToken)
    → IsRevocation (ledger_of tokens) (ledger_of (update p (revoked at) tokens))
unfolding update
update-IsRevocation p at [] = tt
update-IsRevocation p at (t ∷ ts) = elim (Bool-cases (p t)) [
  | inl e ↦ rw e (inr refl, update-IsRevocation p at ts)
  | inr e ↦ rw e (inl refl, update-IsRevocation p at ts)
]

pub run-Rules : (xs : Ledger) → Rules (λ db. Run xs (ledger_of db.refresh_tokens))
run-Rules xs = record {
  user_rows = λ rows db h. h;
  otp_rows = λ rows db h. h;
  token_insertion = λ row db h.
      subst (Run xs) (sym (ledger_of-append row db.refresh_tokens)) (issue h (entry_of row));
  token_revocation = λ p at db h. revoke h _ (update-IsRevocation p at db.refresh_tokens);
}
