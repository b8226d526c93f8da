-- ===== src/Prelude/Tables.antt =====
-- A database table as the list of its rows, and the row operations of the SQL statements.
use Prim.Native.Nat.{ℕ}
use mathlib.Core.Path.{◌≡◌, refl, ap, sym, ◌∙◌, fun_ext}
use mathlib.Core.Bool.{Bool, true, false, ◌||◌}
use mathlib.Core.List.{List, [], ◌∷◌, ◌++◌}
use mathlib.Core.Option.{Option, none, some}
use native.Mathlib.Omega.{arith}
use datn_backend.Prelude.Tests.{ltb, if◌then◌else◌, Bool-cases}
use datn_backend.Prelude.Lists.{All}
use mathlib.Core.Logic.{inl, inr}

module _ {ℓ} {A : Type ℓ} where
  -- SELECT … WHERE p: the first row, if there is one.
  unfoldable pub find : (A → Bool) → List A → Option A
  find p [] = none
  find p (x ∷ xs) = if p x then some x else find p xs

  -- EXISTS (SELECT 1 … WHERE p), and the test of a unique index.
  unfoldable pub any : (A → Bool) → List A → Bool
  any p [] = false
  any p (x ∷ xs) = p x || any p xs

  -- UPDATE … SET f WHERE p.
  unfoldable pub update : (A → Bool) → (A → A) → List A → List A
  update p f [] = []
  update p f (x ∷ xs) = (if p x then f x else x) ∷ update p f xs

  -- SELECT … WHERE p: every row.
  unfoldable pub select : (A → Bool) → List A → List A
  select p [] = []
  select p (x ∷ xs) = let rest = select p xs in if p x then x ∷ rest else rest

  -- DELETE … WHERE p.
  unfoldable pub delete : (A → Bool) → List A → List A
  delete p [] = []
  delete p (x ∷ xs) = let rest = delete p xs in if p x then rest else x ∷ rest

module _ {ℓ} {A : Type ℓ} where
  abbrev pub later : (A → ℕ) → A → Option A → A
  later key x none = x
  later key x (some y) = if ltb (key y) (key x) then x else y

  -- ORDER BY key DESC LIMIT 1; of rows with one key, the last inserted.
  unfoldable pub newest : (A → ℕ) → List A → Option A
  newest key [] = none
  newest key (x ∷ xs) = some (later key x (newest key xs))

module _ {ℓ} {A : Type ℓ} where
  insert_by : (A → A → Bool) → A → List A → List A
  insert_by before x [] = x ∷ []
  insert_by before x (y ∷ ys) =
      let rest = insert_by before x ys in if before x y then x ∷ y ∷ ys else y ∷ rest

  -- ORDER BY, where `before x y` says that x may stand before y.
  unfoldable pub order_by : (A → A → Bool) → List A → List A
  unfolding insert_by
  order_by before [] = []
  order_by before (x ∷ xs) = insert_by before x (order_by before xs)

module _ {ℓ} {A : Type ℓ} where
  pub find_sound : (p : A → Bool) (xs : List A) (x : A) → find p xs ≡ some x → p x ≡ true
  unfolding find
  find_sound p [] x h = cc
  find_sound p (y ∷ xs) x h = ground (arith, find_sound p xs x)

  -- A row that the search finds is still found, changed, after an update that keeps `q`.
  pub find-update :
      (q p : A → Bool) (f : A → A)
      → ((x : A) → q (f x) ≡ q x)
      → (xs : List A) (x : A) → find q xs ≡ some x
      → find q (update p f xs) ≡ some (if p x then f x else x)
  unfolding find update
  find-update q p f keep [] x h = cc
  find-update q p f keep (y ∷ xs) x h = ground (arith, keep y, find-update q p f keep xs x)

  pub find-append_some :
      (q : A → Bool) (xs ys : List A) (x : A) → find q xs ≡ some x → find q (xs ++ ys) ≡ some x
  unfolding find
  find-append_some q [] ys x h = cc
  find-append_some q (y ∷ xs) ys x h = ground (arith, find-append_some q xs ys x)

  pub find-append_none :
      (q : A → Bool) (xs ys : List A) → find q xs ≡ none → find q (xs ++ ys) ≡ find q ys
  unfolding find
  find-append_none q [] ys h = refl
  find-append_none q (y ∷ xs) ys h = ground (arith, find-append_none q xs ys)

  pub find_of_any : (p : A → Bool) (xs : List A) → any p xs ≡ true → (x : A) × (find p xs ≡ some x)
  unfolding find any
  find_of_any p [] h = cc
  find_of_any p (y ∷ xs) h = elim (Bool-cases (p y)) [
    | inl e ↦ (y, rw e refl)
    | inr e ↦ (let (x, found) = find_of_any p xs (ground arith) in (x, rw (e, found) refl))
  ]

  pub find-none_of_any : (p : A → Bool) (xs : List A) → any p xs ≡ false → find p xs ≡ none
  unfolding find any
  find-none_of_any p [] h = refl
  find-none_of_any p (y ∷ xs) h = ground (arith, find-none_of_any p xs)

  pub any-update :
      (q p : A → Bool) (f : A → A)
      → ((x : A) → q (f x) ≡ q x)
      → (xs : List A) → any q (update p f xs) ≡ any q xs
  unfolding any update
  any-update q p f keep [] = refl
  any-update q p f keep (y ∷ xs) = ground (arith, keep y, any-update q p f keep xs)

  pub any-append : (q : A → Bool) (xs ys : List A) → any q (xs ++ ys) ≡ (any q xs || any q ys)
  unfolding any
  any-append q [] ys = refl
  any-append q (y ∷ xs) ys = ground (arith, any-append q xs ys)

module _ {ℓ κ} {A : Type ℓ} (P : A → Type κ) where
  pub All-delete : (p : A → Bool) (xs : List A) → All P xs → All P (delete p xs)
  unfolding delete
  All-delete p [] h = tt
  All-delete p (x ∷ xs) h = elim (Bool-cases (p x)) [
    | inl e ↦ rw e (All-delete p xs h.1)
    | inr e ↦ rw e (h.0, All-delete p xs h.1)
  ]

module _ {ℓ} {A : Type ℓ} where
  -- A row that stays is found as before.
  pub find-delete :
      (q p : A → Bool)
      → ((x : A) → q x ≡ true → p x ≡ false)
      → (xs : List A) → find q (delete p xs) ≡ find q xs
  unfolding find delete
  find-delete q p apart [] = refl
  find-delete q p apart (x ∷ xs) = elim (Bool-cases (p x)) [
    | inl e ↦ elim (Bool-cases (q x)) [
      | inl t ↦ absurd (ground (arith, apart x t))
      | inr f ↦ rw (e, f) (find-delete q p apart xs)
    ]
    | inr e ↦ rw e (ap (λ r. if q x then some x else r) (find-delete q p apart xs))
  ]

  pub All-deleted : (p : A → Bool) (xs : List A) → All (λ x. p x ≡ false) (delete p xs)
  unfolding delete
  All-deleted p [] = tt
  All-deleted p (x ∷ xs) = elim (Bool-cases (p x)) [
    | inl e ↦ rw e (All-deleted p xs)
    | inr e ↦ rw e (e, All-deleted p xs)
  ]

module _ {ℓ κ μ} {A : Type ℓ} (P : A → Type κ) (Q : A → Type μ) where
  pub All-map : ((x : A) → P x → Q x) → (xs : List A) → All P xs → All Q xs
  All-map f [] h = tt
  All-map f (x ∷ xs) h = (f x h.0, All-map f xs h.1)

module _ {ℓ} {A : Type ℓ} where
  pub delete-congr :
      (p q : A → Bool) → ((x : A) → p x ≡ q x) → (xs : List A) → delete p xs ≡ delete q xs
  delete-congr p q same xs = ap (λ r. delete r xs) (fun_ext same)

  -- Two deletions are one of the rows that either takes.
  pub delete-delete :
      (p q : A → Bool) (xs : List A) → delete p (delete q xs) ≡ delete (λ x. q x || p x) xs
  unfolding delete
  delete-delete p q [] = refl
  delete-delete p q (x ∷ xs) = elim (Bool-cases (q x)) [
    | inl e ↦ rw e (delete-delete p q xs)
    | inr e ↦ rw e (ap (λ rest. if p x then rest else x ∷ rest) (delete-delete p q xs))
  ]

  pub delete_comm : (p q : A → Bool) (xs : List A) → delete p (delete q xs) ≡ delete q (delete p xs)
  delete_comm p q xs =
      delete-delete p q xs
      ∙ delete-congr (λ x. q x || p x) (λ x. p x || q x) (λ x. ground arith) xs
      ∙ sym (delete-delete q p xs)

  pub delete-delete_self : (p : A → Bool) (xs : List A) → delete p (delete p xs) ≡ delete p xs
  delete-delete_self p xs =
      delete-delete p p xs ∙ delete-congr (λ x. p x || p x) p (λ x. ground arith) xs
