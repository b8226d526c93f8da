-- ===== src/Repo/Keys.antt =====
-- Membership, and the row that ORDER BY … LIMIT 1 picks after an update.
use datn_backend.Prelude.{
  ℕ, ◌≡◌, refl, ap, ◌⊎◌, inl, inr, Bool, Option, none, some, List, [], ◌∷◌, arith, if◌then◌else◌,
  Bool-cases,
}
use mathlib.Core.Option
use datn_backend.Prelude.Tables.{update, select, later, newest}

module _ {A : Type 0} where
  -- The row stands in the table.
  abbrev pub In : A → List A → Type 0
  In x [] = ⊥
  In x (y ∷ ys) = (x ≡ y) ⊎ In x ys

module _ {A : Type 0} where
  abbrev pub changed : (A → Bool) → (A → A) → A → A
  changed p f x = if p x then f x else x

  select-update :
      (q p : A → Bool) (f : A → A)
      → ((x : A) → q (f x) ≡ q x)
      → (xs : List A) → select q (update p f xs) ≡ update p f (select q xs)
  unfolding select update
  select-update q p f keep [] = refl
  select-update q p f keep (x ∷ xs) = ground (arith, keep x, select-update q p f keep xs)

  later-changed :
      (key : A → ℕ) (g : A → A)
      → ((x : A) → key (g x) ≡ key x)
      → (x : A) (o : Option A) → later key (g x) (Option.map g o) ≡ g (later key x o)
  later-changed key g same x none = refl
  later-changed key g same x (some y) = ground (arith, same x, same y)

  newest-changed :
      (key : A → ℕ) (p : A → Bool) (f : A → A)
      → ((x : A) → key (changed p f x) ≡ key x)
      → (xs : List A) → newest key (update p f xs) ≡ Option.map (changed p f) (newest key xs)
  unfolding newest update
  newest-changed key p f same [] = refl
  newest-changed key p f same (x ∷ xs) =
      rw (newest-changed key p f same xs)
        (ap some (later-changed key (changed p f) same x (newest key xs)))

  -- The newest of the selected rows after an update that keeps the order and the selection.
  pub newest-update :
      (key : A → ℕ) (q p : A → Bool) (f : A → A)
      → ((x : A) → q (f x) ≡ q x)
      → ((x : A) → key (f x) ≡ key x)
      → (xs : List A) (x : A) → newest key (select q xs) ≡ some x
      → newest key (select q (update p f xs)) ≡ some (changed p f x)
  newest-update key q p f keep same xs x h =
      rw (select-update q p f keep xs, newest-changed key p f (kept_order) (select q xs), h)
    where
      kept_order : (z : A) → key (changed p f z) ≡ key z
      kept_order z = elim (Bool-cases (p z)) [ inl t ↦ rw t (same z) | inr t ↦ rw t ]
