-- ===== src/Pairing/Start/Outcomes.antt =====
-- StartPairing stores one pending session under a code that no session has, or nothing.
use datn_backend.Prelude.{
  ℕ, zero, suc, ◌+◌, ◌≡◌, refl, subst, Bool, true, false, not, ◌||◌, none, [], ◌∷◌, ◌++◌, arith,
  if◌then◌else◌,
}
use datn_backend.Prelude.Tables.{any}
use datn_backend.Text.{Text, trim_space, to_lower, is_empty}
use datn_backend.Domain.Pairing.{PairingSession, pending}
use datn_backend.Errors.{Error, usecase, repo, UsecaseError, RepoError, Result, ok, err}
use datn_backend.World.{World, Db, Env}
use datn_backend.Action.{Action, continue, guard}
use datn_backend.Action.Keeps.{Keeps, Keeps-query}
use datn_backend.Pairing.Codes.Draws.{generate_device_code-Keeps}
use datn_backend.Repo.PairingSessions.{has_code, exists_by_device_code}
use datn_backend.Pairing.Codes.{generate_device_code}
use datn_backend.Pairing.Start.{
  unless_code_exists, store_code, try_code, try_codes, start_pairing, pairing_session_ttl,
  device_code_max_retries,
}

guard_db : (b : Bool) (e : Error) (w : World) → (guard b e w).1.db ≡ w.db
guard_db true e w = refl
guard_db false e w = refl

module _ (env : Env) where
  -- The session that was stored.
  pub record Started (device_name os_type : Text) (session : PairingSession) (before : Db)
      (after : World) : Type 0 where
    pub named : session.device_name ≡ device_name
    pub typed : session.os_type ≡ os_type
    pub waits : session.status ≡ pending
    pub unpaired : session.pc_agent_id ≡ none
    pub at : ℕ
    -- The clock is read last, just before the INSERT that ends the call.
    pub last : after.steps ≡ at + 2
    pub expiry : session.expires_at ≡ env.clock at + pairing_session_ttl
    pub fresh : any (has_code session.device_code) before.pairing_sessions ≡ false
    pub wrote :
        after.db ≡ record before { pairing_sessions = before.pairing_sessions ++ session ∷ [] }

  store_code_ok :
      (device_name os_type code : Text) (w : World) (session : PairingSession)
      → (store_code env device_name os_type code w).0 ≡ ok session
      → Started device_name os_type session w.db (store_code env device_name os_type code w).1
  unfolding store_code
  store_code_ok device_name os_type code w session h = record {
    named = ground arith;
    typed = ground arith;
    waits = ground arith;
    unpaired = ground arith;
    at = w.steps;
    last = ground arith;
    expiry = ground arith;
    fresh = ground arith;
    wrote = ground arith;
  }

  store_code_err :
      (device_name os_type code : Text) (w : World) (e : Error)
      → (store_code env device_name os_type code w).0 ≡ err e
      → (store_code env device_name os_type code w).1.db ≡ w.db
  unfolding store_code
  store_code_err device_name os_type code w e h = ground arith

module _ (env : Env) (device_name os_type : Text) where
  -- One session was stored, or nothing.
  abbrev Outcome : Db → Result PairingSession × World → Type 0
  Outcome before p =
      ((session : PairingSession)
        → p.0 ≡ ok session
        → Started env device_name os_type session before p.1)
      × ((e : Error) → p.0 ≡ err e → p.1.db ≡ before)

  abbrev Tries : Action PairingSession → Type 0
  Tries m = (w : World) → Outcome w.db (m w)

  unless_code_exists-Outcome :
      (next : Action PairingSession) (r : Result PairingSession) (before : Db) (v : World)
      → Tries next
      → Outcome before (r, v)
      → Outcome before (unless_code_exists next r v)
  unless_code_exists-Outcome next (err (repo RepoError.pairing_session_code_exists)) before v tries
        h =
      subst (λ d. Outcome d (next v)) (h.1 (repo RepoError.pairing_session_code_exists) refl)
        (tries v)
  unless_code_exists-Outcome next r before v tries h = h

  store_code-Tries : (code : Text) → Tries (store_code env device_name os_type code)
  store_code-Tries code w =
      (store_code_ok env device_name os_type code w, store_code_err env device_name os_type code w)

  -- A first part that writes nothing, and then the rest.
  continue-Outcome :
      {A : Type 0}
      → (f : A → Action PairingSession) (r : Result A) (before : Db) (v : World) → v.db ≡ before
      → ((a : A) (u : World) → u.db ≡ before → Outcome before (f a u))
      → Outcome before (continue f (r, v))
  continue-Outcome f (ok a) before v same rest = rest a v same
  continue-Outcome f (err e) before v same rest = (λ session h. absurd (cc h), λ e' h. same)

  at_db :
      (m : Action PairingSession) (before : Db) (v : World)
      → Tries m
      → v.db ≡ before
      → Outcome before (m v)
  at_db m before v tries same = subst (λ d. Outcome d (m v)) same (tries v)

  choose-Outcome :
      (exists : Bool) (next other : Action PairingSession) (before : Db) (v : World)
      → Outcome before (next v)
      → Outcome before (other v)
      → Outcome before ((if exists then next else other) v)
  choose-Outcome true next other before v h k = h
  choose-Outcome false next other before v h k = k

  exists-Keeps :
      (before : Db) (code : Text) → Keeps (λ db. db ≡ before) (exists_by_device_code env code)
  unfolding exists_by_device_code
  exists-Keeps before code = Keeps-query env _

  try_code-Tries :
      (next : Action PairingSession) → Tries next → Tries (try_code env next device_name os_type)
  unfolding try_code
  try_code-Tries next tries w =
      continue-Outcome _ (generate_device_code env w).0 w.db (generate_device_code env w).1
        ((generate_device_code-Keeps {P = λ db. db ≡ w.db} env).at w refl)
        λ code v same.
          continue-Outcome _ (exists_by_device_code env code v).0 w.db
            (exists_by_device_code env code v).1 ((exists-Keeps w.db code).at v same)
            λ exists u same'. choose-Outcome exists next _ w.db u (at_db next w.db u tries same') (
              let stored = store_code env device_name os_type code u in
              unless_code_exists-Outcome next stored.0 w.db stored.1 tries (
                at_db (store_code env device_name os_type code) w.db u (store_code-Tries code)
                  same'))

  try_codes-Tries : (n : ℕ) → Tries (try_codes env n device_name os_type)
  unfolding try_codes
  try_codes-Tries zero w = (λ session h. absurd (cc h), λ e h. refl)
  try_codes-Tries (suc n) w =
      try_code-Tries (try_codes env n device_name os_type) (try_codes-Tries n) w

module _ (env : Env) where
  start_pairing-Outcome :
      (name_input os_input : Text) (w : World)
      → Outcome env
          (trim_space name_input)
          (trim_space (to_lower env.lower_unicode os_input))
          w.db
          (start_pairing env name_input os_input w)
  unfolding start_pairing
  start_pairing-Outcome name_input os_input w =
      let name = trim_space name_input in
      let os = trim_space (to_lower env.lower_unicode os_input) in
      let passes = not (is_empty name || is_empty os) in
      continue-Outcome env name os _ (guard passes (usecase UsecaseError.invalid_input) w).0 w.db
        (guard passes (usecase UsecaseError.invalid_input) w).1
        (guard_db passes (usecase UsecaseError.invalid_input) w)
        λ t v same.
          at_db env name os (try_codes env device_code_max_retries name os) w.db v
            (try_codes-Tries env name os device_code_max_retries) same

  -- StartPairing stores nothing but one new session: pending, with the trimmed names, not paired,
  -- under a code that no stored session has, and expiring ten minutes after the last instant that the
  -- call reads from the clock, just before its INSERT.
  pub start_pairing_ok :
      (name_input os_input : Text) (w : World) (session : PairingSession)
      → (start_pairing env name_input os_input w).0 ≡ ok session
      → Started env
          (trim_space name_input)
          (trim_space (to_lower env.lower_unicode os_input))
          session
          w.db
          (start_pairing env name_input os_input w).1
  start_pairing_ok name_input os_input w session h =
      (start_pairing-Outcome name_input os_input w).0 session h

  -- A StartPairing that fails, also after some rounds of its loop, stores nothing.
  pub start_pairing_err :
      (name_input os_input : Text) (w : World) (e : Error)
      → (start_pairing env name_input os_input w).0 ≡ err e
      → (start_pairing env name_input os_input w).1.db ≡ w.db
  start_pairing_err name_input os_input w e h = (start_pairing-Outcome name_input os_input w).1 e h
