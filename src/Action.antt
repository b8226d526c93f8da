-- ===== src/Action.antt =====
-- Go functions that return (value, error) and act on the database: the world comes back beside
-- the result, since what was written before an error stays written.
pub mod Keeps
pub mod Transactions
pub mod Sequence
use datn_backend.Prelude.{ℕ, ◌+◌, Bool, true, false, Option, none, some, if◌then◌else◌}
use datn_backend.Text.{Text}
use datn_backend.Domain.{Time}
use datn_backend.Errors.{Error, db_failed, random_failed, bcrypt_failed, Result, ok, err}
use datn_backend.World.{World, Db, Env}

abbrev pub Action {ℓ} : Type ℓ → Type ℓ
Action A = World → Result A × World

module _ {ℓ} {A : Type ℓ} where
  abbrev pub pure : A → Action A
  pure a w = (ok a, w)

  abbrev pub raise : Error → Action A
  raise e w = (err e, w)

  abbrev pub lift : Result A → Action A
  lift r w = (r, w)

-- if !condition { return nil, e }
abbrev pub guard : Bool → Error → Action (Unit {0})
guard true e w = (ok tt, w)
guard false e w = (err e, w)

module _ {ℓ κ} {A : Type ℓ} {B : Type κ} where
  abbrev pub continue : (A → World → Result B × World) → Result A × World → Result B × World
  continue f (ok a, w) = f a w
  continue f (err e, w) = (err e, w)

  infixl 10 ◌>>=◌ ◌>>◌
  abbrev pub ◌>>=◌ : Action A → (A → Action B) → Action B
  ◌>>=◌ m f w = continue f (m w)

  abbrev pub ◌>>◌ : Action A → Action B → Action B
  m >> n = m >>= λ _. n

  -- The error of a call goes on to code that looks at it.
  abbrev pub inspect : (Result A → Action B) → Action A → Action B
  inspect f m w = let (r, w') = m w in f r w'

abbrev pub map_err {ℓ} : {A : Type ℓ} → (Error → Error) → Result A → Result A
map_err f (ok a) = ok a
map_err f (err e) = err (f e)

-- if errors.Is(err, …) { return nil, … }
abbrev pub translate {ℓ} : {A : Type ℓ} → (Error → Error) → Action A → Action A
translate f m w = let (r, w') = m w in (map_err f r, w')

abbrev pub from_option {ℓ} : {A : Type ℓ} → Error → Option A → Result A
from_option e none = err e
from_option e (some a) = ok a

module _ (env : Env) where
  unfoldable pub now : Action Time
  now w = (ok (env.clock w.steps), record w { steps = w.steps + 1 })

  unfoldable pub rand_int : ℕ → Action ℕ
  rand_int max w =
      (from_option random_failed (env.rand_int w.steps max), record w { steps = w.steps + 1 })

  unfoldable pub rand_read : ℕ → Action Text
  rand_read count w =
      (from_option random_failed (env.rand_read w.steps count), record w { steps = w.steps + 1 })

  unfoldable pub bcrypt_generate : Text → Action Text
  bcrypt_generate password w = (
    from_option bcrypt_failed (env.bcrypt_generate w.steps password),
    record w { steps = w.steps + 1 },
  )

  -- A fresh UUID of the program's own.
  unfoldable pub new_uuid : Action Text
  new_uuid w = (ok (env.gen_random_uuid w.steps), record w { steps = w.steps + 1 })

module _ {ℓ} {A : Type ℓ} (env : Env) where
  -- One statement: `run` has the step and the tables, and leaves the tables if it fails.
  unfoldable pub statement : (ℕ → Db → Result A × Db) → Action A
  statement run w =
      if env.db_fails w.steps
      then (err db_failed, record w { steps = w.steps + 1 })
      else (let (r, db) = run w.steps w.db in (r, record { db = db; steps = w.steps + 1 }))

  unfoldable pub query : (Db → Result A) → Action A
  unfolding statement
  query read = statement (λ n db. (read db, db))

  commit : Db → Result A → World → Result A × World
  commit before r w =
      if env.db_fails w.steps
      then (err db_failed, record { db = before; steps = w.steps + 1 })
      else (r, record w { steps = w.steps + 1 })

  finish : Db → Result (Result A) → World → Result A × World
  unfolding commit
  finish before (err e) w = (err e, record { db = before; steps = w.steps })
  finish before (ok r) w = commit before r w

  -- BeginTx, the body and, where the body ends with `ok r`, Commit before `r` is returned. The
  -- deferred Rollback undoes what the body did in all other cases, also when Commit fails.
  unfoldable pub transaction : Action (Result A) → Action A
  unfolding finish
  transaction body w =
      if env.db_fails w.steps
      then (err db_failed, record w { steps = w.steps + 1 })
      else (let (r, w') = body (record w { steps = w.steps + 1 }) in finish w.db r w')
