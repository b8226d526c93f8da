-- ===== src/Action/Keeps.antt =====
-- Invariants of the tables: one rule for each way to build an action, whether it succeeds or fails.
use datn_backend.Prelude.{ℕ, ◌+◌, Bool, true, false, inl, inr, if◌then◌else◌, Bool-cases}
use datn_backend.Text.{Text}
use datn_backend.Errors.{Error, Result, ok, err}
use datn_backend.World.{World, Db, Env}
use datn_backend.Action.{
  Action, pure, raise, lift, guard, inspect, translate, continue, ◌>>=◌, now, rand_int, rand_read,
  bcrypt_generate, new_uuid, statement, query, transaction, finish,
}

pub record Keeps {A : Type 0} (P : Db → Type 0) (m : Action A) : Type 0 where
  pub at : (w : World) → P w.db → P (m w).1.db

module _ {A : Type 0} {P : Db → Type 0} where
  pub Keeps-pure : (a : A) → Keeps P (pure a)
  Keeps-pure a = record { at = λ w h. h }

  pub Keeps-raise : (e : Error) → Keeps P (raise {A = A} e)
  Keeps-raise e = record { at = λ w h. h }

  pub Keeps-lift : (r : Result A) → Keeps P (lift r)
  Keeps-lift r = record { at = λ w h. h }

  pub Keeps-translate : (f : Error → Error) (m : Action A) → Keeps P m → Keeps P (translate f m)
  Keeps-translate f m k = record { at = k.at }

  pub Keeps-if : (b : Bool) (m n : Action A) → Keeps P m → Keeps P n → Keeps P (if b then m else n)
  Keeps-if true m n k l = k
  Keeps-if false m n k l = l

module _ {P : Db → Type 0} where
  pub Keeps-guard : (b : Bool) (e : Error) → Keeps P (guard b e)
  Keeps-guard true e = record { at = λ w h. h }
  Keeps-guard false e = record { at = λ w h. h }

  pub Keeps-now : (env : Env) → Keeps P (now env)
  unfolding now
  Keeps-now env = record { at = λ w h. h }

  pub Keeps-rand_int : (env : Env) (max : ℕ) → Keeps P (rand_int env max)
  unfolding rand_int
  Keeps-rand_int env max = record { at = λ w h. h }

  pub Keeps-rand_read : (env : Env) (count : ℕ) → Keeps P (rand_read env count)
  unfolding rand_read
  Keeps-rand_read env count = record { at = λ w h. h }

  pub Keeps-bcrypt_generate : (env : Env) (password : Text) → Keeps P (bcrypt_generate env password)
  unfolding bcrypt_generate
  Keeps-bcrypt_generate env password = record { at = λ w h. h }

  pub Keeps-new_uuid : (env : Env) → Keeps P (new_uuid env)
  unfolding new_uuid
  Keeps-new_uuid env = record { at = λ w h. h }

module _ {A B : Type 0} {P : Db → Type 0} where
  continue-Keeps :
      (f : A → Action B) (r : Result A) (w : World)
      → ((a : A) → Keeps P (f a))
      → P w.db
      → P (continue f (r, w)).1.db
  continue-Keeps f (ok a) w kf h = (kf a).at w h
  continue-Keeps f (err e) w kf h = h

  pub Keeps-bind :
      (m : Action A) (f : A → Action B) → Keeps P m → ((a : A) → Keeps P (f a)) → Keeps P (m >>= f)
  Keeps-bind m f k kf = record { at = λ w h. continue-Keeps f (m w).0 (m w).1 kf (k.at w h) }

  pub Keeps-inspect :
      (f : Result A → Action B) (m : Action A)
      → Keeps P m
      → ((r : Result A) → Keeps P (f r))
      → Keeps P (inspect f m)
  Keeps-inspect f m k kf = record { at = λ w h. (kf (m w).0).at (m w).1 (k.at w h) }

module _ {A : Type 0} (P : Db → Type 0) (env : Env) where
  finish-keeps :
      (before : Db) (r : Result (Result A)) (w : World)
      → P before
      → P w.db
      → P (finish env before r w).1.db
  unfolding finish
  finish-keeps before (err e) w hb h = hb
  finish-keeps before (ok r) w hb h = elim (Bool-cases (env.db_fails w.steps)) [
    | inl e ↦ rw e hb
    | inr e ↦ rw e h
  ]

module _ {A : Type 0} {P : Db → Type 0} (env : Env) where
  pub Keeps-statement :
      (run : ℕ → Db → Result A × Db)
      → ((n : ℕ) (db : Db) → P db → P (run n db).1)
      → Keeps P (statement env run)
  unfolding statement
  Keeps-statement run kept = record {
    at = λ w h. elim (Bool-cases (env.db_fails w.steps)) [
      | inl e ↦ rw e h
      | inr e ↦ rw e (kept w.steps w.db h)
    ];
  }

  pub Keeps-query : (read : Db → Result A) → Keeps P (query env read)
  unfolding query
  Keeps-query read = Keeps-statement (λ n db. (read db, db)) (λ n db h. h)

  pub Keeps-transaction : (body : Action (Result A)) → Keeps P body → Keeps P (transaction env body)
  unfolding transaction
  Keeps-transaction body k = record {
    at = λ w h.
        let v = record w { steps = w.steps + 1 } in
        elim (Bool-cases (env.db_fails w.steps)) [
          | inl e ↦ rw e h
          | inr e ↦ rw e (finish-keeps P env w.db (body v).0 (body v).1 h (k.at v h))
        ];
  }

-- For the statements that test before they write: both outcomes keep the invariant.
pub if-Keeps :
    {A : Type 0} (P : Db → Type 0) (b : Bool) (x y : Result A × Db)
    → P x.1
    → P y.1
    → P (if b then x else y).1
if-Keeps P true x y hx hy = hx
if-Keeps P false x y hx hy = hy

pub ruleset keeps_rules = (
  Keeps-pure, Keeps-raise, Keeps-lift, Keeps-translate, Keeps-if, Keeps-guard, Keeps-now,
  Keeps-rand_int, Keeps-rand_read, Keeps-bcrypt_generate, Keeps-new_uuid, Keeps-bind, Keeps-inspect,
  Keeps-query, Keeps-transaction,
)
