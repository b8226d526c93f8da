-- ===== src/Pairing/Confirmations.antt =====
-- A device code is confirmed once.
use datn_backend.Prelude.{
  ◌+◌, ◌≡◌, ◌≢◌, refl, sym, ap, subst, ◌∙◌, inl, inr, true, ◌||◌, some, List, arith, if◌then◌else◌,
  Bool-cases,
}
use datn_backend.Prelude.Tables.{find, find-update}
use datn_backend.Text.{Text, text_eq_refl, trim_space, to_upper, is_empty}
use datn_backend.Domain.Pairing.{PcAgent}
use datn_backend.Errors.{ok, Result-cases}
use datn_backend.World.{World, Db, Env}
use datn_backend.Repo.PairingSessions.{has_id, has_code, as_confirmed, confirm}
use datn_backend.Repo.PairingSessions.Confirmation.{confirm_ok}
use datn_backend.Pairing.Start.{confirm_pairing}
use datn_backend.Pairing.Requests.{Request, serve_all}
use datn_backend.Pairing.Requests.Sessions.{IsSettled, serve_all-IsSettled}

module _ (env : Env) where
  -- The code that the repository is asked for.
  abbrev pub normal_code : Text → Text
  normal_code input = trim_space (to_upper env.upper_unicode input)

  confirm_pairing_calls :
      (user_input code_input : Text) (w : World) (agent : PcAgent)
      → (confirm_pairing env user_input code_input w).0 ≡ ok agent
      → (let at = env.clock w.steps in
          let v = record w { steps = w.steps + 1 } in
          let called = confirm env (normal_code code_input) (trim_space user_input) at v in
          (called.0 ≡ ok agent)
          × ((confirm_pairing env user_input code_input w).1.db ≡ called.1.db))
  unfolding confirm_pairing
  confirm_pairing_calls user_input code_input w agent h =
      let v = record w { steps = w.steps + 1 } in
      let called =
        confirm env (normal_code code_input) (trim_space user_input) (env.clock w.steps) v in
      elim (Bool-cases (is_empty (trim_space user_input) || is_empty (normal_code code_input))) [
        | inl e ↦ absurd (ground arith)
        | inr e ↦ elim (Result-cases called.0) [
          | inl (x, r) ↦ absurd (ground arith)
          | inr (a, r) ↦ (ground arith, ground arith)
        ]
      ]

  confirm_pairing-IsSettled :
      (user_input code_input : Text) (w : World) (agent : PcAgent)
      → (confirm_pairing env user_input code_input w).0 ≡ ok agent
      → IsSettled
          (normal_code code_input)
          (confirm_pairing env user_input code_input w).1.pairing_sessions
  confirm_pairing-IsSettled user_input code_input w agent h =
      let code = normal_code code_input in
      let user_id = trim_space user_input in
      let at = env.clock w.steps in
      let (called, after) = confirm_pairing_calls user_input code_input w agent h in
      let (session, found, c) =
        confirm_ok env user_id at code (record w { steps = w.steps + 1 }) agent called in
      let p = has_id session.id in
      let f = as_confirmed user_id agent.id at in
      let here : p session ≡ true = text_eq_refl session.id in
      let wrote = ap (λ (db : Db). db.pairing_sessions) (after ∙ c.wrote) in
      subst (IsSettled code) (sym wrote) (record {
        session = if p session then f session else session;
        stored = find-update (has_code code) p f (λ x. refl) w.pairing_sessions session found;
        settled = rw here refl;
      })

  -- Once a device code is confirmed, no later confirmation of it succeeds, by any user and whatever
  -- requests come between, deletions of agents too.
  pub confirm_pairing_once :
      (user_input code_input other again : Text) (w : World) (agent agent' : PcAgent)
      (rs : List Request)
      → (confirm_pairing env user_input code_input w).0 ≡ ok agent
      → normal_code again ≡ normal_code code_input
      → (confirm_pairing env other again
          (serve_all env (confirm_pairing env user_input code_input w).1 rs)).0
        ≢ ok agent'
  confirm_pairing_once user_input code_input other again w agent agent' rs h same h' =
      let u = (confirm_pairing env user_input code_input w).1 in
      let v = serve_all env u rs in
      let kept =
        serve_all-IsSettled (normal_code code_input) env u rs
          (confirm_pairing-IsSettled user_input code_input w agent h) in
      let (called, _) = confirm_pairing_calls other again v agent' h' in
      let (session, found, c) =
        confirm_ok env (trim_space other) (env.clock v.steps) (normal_code again)
          (record v { steps = v.steps + 1 }) agent' called in
      let stored : find (has_code (normal_code again)) v.pairing_sessions ≡ some kept.session =
        rw same kept.stored in
      cc (found, stored, kept.settled, c.was_pending)
