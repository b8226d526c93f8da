-- ===== src/Pairing/Codes/Draws.antt =====
-- Generating a device code leaves the tables as they are.
use datn_backend.Prelude.{ℕ, zero, suc, length}
use datn_backend.World.{Db, Env}
use datn_backend.Text.{Text}
use datn_backend.Action.{Action}
use datn_backend.Action.Keeps.{
  Keeps, Keeps-pure, Keeps-bind, Keeps-rand_int, Keeps-lift, keeps_rules,
}
use datn_backend.Pairing.Codes

module _ {P : Db → Type 0} (env : Env) where
  pick_letter-Keeps : (rest : Action Text) → Keeps P rest → Keeps P (Codes.pick_letter env rest)
  unfolding Codes.pick_letter
  pick_letter-Keeps rest k =
      Keeps-bind _ _ (Keeps-rand_int env (length Codes.device_code_alphabet))
        λ i. Keeps-bind _ _ (Keeps-lift _) λ c. Keeps-bind rest _ k λ s. Keeps-pure _

  pick_letters-Keeps : (n : ℕ) → Keeps P (Codes.pick_letters env n)
  unfolding Codes.pick_letters
  pick_letters-Keeps zero = search keeps_rules
  pick_letters-Keeps (suc n) = pick_letter-Keeps (Codes.pick_letters env n) (pick_letters-Keeps n)

  pub generate_device_code-Keeps : Keeps P (Codes.generate_device_code env)
  unfolding Codes.generate_device_code
  generate_device_code-Keeps = pick_letters-Keeps Codes.device_code_length
