-- ===== src/Action/Sequence.antt =====
-- What a sequence that succeeds has done.
use datn_backend.Prelude.{◌≡◌, refl, arith, true, false, Bool}
use datn_backend.Errors.{Error, ok, Result-cases}
use datn_backend.World.{World}
use datn_backend.Action.{Action, guard, ◌>>=◌}
use datn_backend.Prelude.{inl, inr}

module _ {A B : Type 0} where
  -- The first part succeeds, and the second is run with its value where it ends.
  pub bind_ok :
      (m : Action A) (f : A → Action B) (w : World) (b : B)
      → ((m >>= f) w).0 ≡ ok b
      → (a : A) × ((m w).0 ≡ ok a) × ((m >>= f) w ≡ f a (m w).1)
  bind_ok m f w b h = elim (Result-cases (m w).0) [
    | inl (e, x) ↦ absurd (ground arith)
    | inr (a, x) ↦ (a, x, rw x refl)
  ]

-- A guard that is passed.
pub guard_ok :
    (b : Bool) (e : Error) (w : World)
    → (guard b e w).0 ≡ ok tt
    → (b ≡ true) × ((guard b e w).1 ≡ w)
guard_ok true e w h = (refl, refl)
guard_ok false e w h = cc
