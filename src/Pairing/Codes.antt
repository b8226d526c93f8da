-- ===== src/Pairing/Codes.antt =====
-- generateDeviceCode, generateAgentSecret and hashAgentSecret.
pub mod Letters
pub mod Draws
use datn_backend.Prelude.{ℕ, zero, suc, ◌+◌, Option, none, some, List, [], ◌∷◌, length, get_elem?}
use datn_backend.Text.{Text, utf8}
use datn_backend.Text.Base64.{encode}
use datn_backend.Errors.{Error, index_out_of_range, Result, ok, err}
use datn_backend.World.{World, Env}
use datn_backend.Action.{
  Action, pure, raise, lift, from_option, rand_int, rand_read, bcrypt_generate, ◌>>=◌,
}

abbrev pub device_code_length : ℕ
device_code_length = 6

abbrev pub device_code_alphabet : Text
device_code_alphabet = utf8 "ABCDEFGHJKLMNPQRSTUVWXYZ23456789"

abbrev pub agent_secret_bytes : ℕ
agent_secret_bytes = 32

module _ (env : Env) where
  -- One character, and the rest of the code.
  unfoldable pub pick_letter : Action Text → Action Text
  unfolding rand_int
  pick_letter rest = do
    i ← rand_int env (length device_code_alphabet)
    c ← lift (from_option index_out_of_range (get_elem? device_code_alphabet i))
    s ← rest
    pure (c ∷ s)

  unfoldable pub pick_letters : ℕ → Action Text
  unfolding pick_letter
  pick_letters zero = pure []
  pick_letters (suc n) = pick_letter (pick_letters n)

  unfoldable pub generate_device_code : Action Text
  unfolding pick_letters
  generate_device_code = pick_letters device_code_length

  unfoldable pub generate_agent_secret : Action Text
  unfolding rand_read
  generate_agent_secret = do bytes ← rand_read env agent_secret_bytes; pure (encode bytes)

  unfoldable pub hash_agent_secret : Text → Action Text
  unfolding bcrypt_generate
  hash_agent_secret agent_secret = bcrypt_generate env agent_secret
