-- ===== src/Action/Transactions.antt =====
-- A transaction leaves what its body wrote, where the body has run to its end and Commit succeeds,
-- and nothing otherwise.
use datn_backend.Prelude.{◌+◌, ◌≡◌, ◌⊎◌, arith}
use datn_backend.Errors.{Error, Result, ok, err}
use datn_backend.World.{World, Env}
use datn_backend.Action.{Action, transaction}

module _ {A : Type 0} (env : Env) (body : Action (Result A)) (w : World) where
  -- The world after BEGIN.
  abbrev pub begun : World
  begun = record w { steps = w.steps + 1 }

  pub transaction_ok :
      (a : A)
      → (transaction env body w).0 ≡ ok a
      → ((body begun).0 ≡ ok (ok a)) × ((transaction env body w).1.db ≡ (body begun).1.db)
  unfolding transaction
  transaction_ok a h = (ground arith, ground arith)

  pub transaction_err :
      (e : Error)
      → (transaction env body w).0 ≡ err e
      → ((transaction env body w).1.db ≡ w.db)
        ⊎ (((body begun).0 ≡ ok (err e)) × ((transaction env body w).1.db ≡ (body begun).1.db))
  unfolding transaction
  transaction_err e h = ground arith
