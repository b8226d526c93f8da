-- ===== src/Pairing/Codes/Letters.antt =====
-- Device codes are six characters of the alphabet.
use datn_backend.Prelude.{
  ℕ, zero, suc, ◌+◌, ◌<◌, ◌≡◌, ◌≢◌, refl, inl, inr, some, [], ◌∷◌, arith, length, get_elem?, All,
  Option-cases,
}
use datn_backend.Text.{Text}
use datn_backend.Errors.{index_out_of_range, ok, err, Result-cases}
use datn_backend.World.{World, Env, IsRandom}
use datn_backend.Action.{Action}
use datn_backend.Repo.Keys.{In}
use datn_backend.Pairing.Codes.{
  device_code_length, device_code_alphabet, pick_letter, pick_letters, generate_device_code,
}

In-get_elem : (s : Text) (i c : ℕ) → get_elem? s i ≡ some c → In c s
In-get_elem [] i c h = cc
In-get_elem (x ∷ s) zero c h = inl (ground arith)
In-get_elem (x ∷ s) (suc i) c h = inr (In-get_elem s i c h)

get_elem-some : (s : Text) (i : ℕ) → i < length s → (c : ℕ) × (get_elem? s i ≡ some c)
get_elem-some [] i h = absurd (omega arith)
get_elem-some (x ∷ s) zero h = (x, refl)
get_elem-some (x ∷ s) (suc i) h = get_elem-some s i (omega arith)

module _ (env : Env) where
  pick_letter_ok :
      (rest : Action Text) (w : World) (code : Text)
      → (pick_letter env rest w).0 ≡ ok code
      → (c : ℕ) × (s : Text) × (v : World) × (code ≡ c ∷ s)
        × In c device_code_alphabet
        × ((rest v).0 ≡ ok s)
  unfolding pick_letter
  pick_letter_ok rest w code h =
      let v = record w { steps = w.steps + 1 } in
      elim (Option-cases (env.rand_int w.steps (length device_code_alphabet))) [
        | inl a ↦ absurd (ground arith)
        | inr (i, a) ↦ elim (Option-cases (get_elem? device_code_alphabet i)) [
          | inl b ↦ absurd (ground arith)
          | inr (c, b) ↦ elim (Result-cases (rest v).0) [
            | inl (e, d) ↦ absurd (ground arith)
            | inr (s, d) ↦ (c, s, v, ground arith, In-get_elem device_code_alphabet i c b, d)
          ]
        ]
      ]

  pick_letters_ok :
      (n : ℕ) (w : World) (code : Text)
      → (pick_letters env n w).0 ≡ ok code
      → (length code ≡ n) × All (λ c. In c device_code_alphabet) code
  unfolding pick_letters
  pick_letters_ok zero w code h = let same : [] ≡ code = ground arith in rw (← same) (refl, tt)
  pick_letters_ok (suc n) w code h =
      let (c, s, v, same, member, rest) = pick_letter_ok (pick_letters env n) w code h in
      let (size, members) = pick_letters_ok n v s rest in rw same (omega arith, (member, members))

  pick_letter_in_range :
      (rest : Action Text) (w : World)
      → IsRandom env
      → ((v : World) → (rest v).0 ≢ err index_out_of_range)
      → (pick_letter env rest w).0 ≢ err index_out_of_range
  unfolding pick_letter
  pick_letter_in_range rest w random safe h =
      let v = record w { steps = w.steps + 1 } in
      elim (Option-cases (env.rand_int w.steps (length device_code_alphabet))) [
        | inl a ↦ ground arith
        | inr (i, a) ↦
            (let (c, b) =
                get_elem-some device_code_alphabet i
                  (random.int_below w.steps (length device_code_alphabet) i a) in
              elim (Result-cases (rest v).0) [
                | inl (e, d) ↦ (let fine = safe v in ground arith)
                | inr (s, d) ↦ ground arith
              ])
      ]

  pick_letters_in_range :
      (n : ℕ) (w : World) → IsRandom env → (pick_letters env n w).0 ≢ err index_out_of_range
  unfolding pick_letters
  pick_letters_in_range zero w random h = ground arith
  pick_letters_in_range (suc n) w random h =
      pick_letter_in_range (pick_letters env n) w random (λ v. pick_letters_in_range n v random) h

  -- A generated device code is six characters of the alphabet.
  pub generate_device_code_shape :
      (w : World) (code : Text)
      → (generate_device_code env w).0 ≡ ok code
      → (length code ≡ 6) × All (λ c. In c device_code_alphabet) code
  unfolding generate_device_code
  generate_device_code_shape w code h = pick_letters_ok device_code_length w code h

  -- The choice of a character never runs off the alphabet, as rand.Int is below its bound.
  pub generate_device_code_in_range :
      (w : World) → IsRandom env → (generate_device_code env w).0 ≢ err index_out_of_range
  unfolding generate_device_code
  generate_device_code_in_range w random = pick_letters_in_range device_code_length w random
