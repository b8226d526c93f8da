-- ===== src/Alerts/Duplicates.antt =====
-- What CreateAlertFromAgent does with an alert that is delivered again.
use datn_backend.Prelude.{
  ℕ, ◌+◌, ◌≡◌, refl, sym, subst, ◌⊎◌, inl, inr, ◌||◌, Option, some, Bool-cases, Option-cases,
}
use datn_backend.Prelude.Tables.{find, find_sound}
use datn_backend.Text.{Text, text_eq_iff, trim_space, is_empty}
use datn_backend.Domain.{Time}
use datn_backend.Domain.Pairing.{PcAgent}
use datn_backend.Errors.{Error, Result, ok, err, db_failed, usecase, UsecaseError}
use datn_backend.World.{World, Env}
use datn_backend.Action.{statement, query}
use datn_backend.Notification.{Sender}
use datn_backend.Repo.PcAgents
use datn_backend.Alerts.{
  CreateAlertFromAgentInput, instant, record_alert, create_alert_from_agent, alert_of_agent,
}
use datn_backend.Alerts.Texts.{normalize_alert_type}
use datn_backend.Alerts.Delivery.{Created}
use datn_backend.Alerts.Recent.{HasRecent, record_alert-HasRecent, record_alert_idle}

module _ (env : Env) (notifications : Option Sender) (input : CreateAlertFromAgentInput) (at : Time)
    (dated : input.triggered_at ≡ some at) where
  abbrev alert_type : Text
  alert_type = normalize_alert_type env input.alert_type

  abbrev pc_agent_id : Text
  pc_agent_id = trim_space input.pc_agent_id

  abbrev create : World → Result Created × World
  create = create_alert_from_agent env notifications input

  record_of : PcAgent → World → Result Created × World
  record_of agent = record_alert env notifications agent alert_type input.message at

  -- A call stops before it has recorded anything, or records an alert of the agent.
  create_cases :
      (w : World)
      → (((e : Error) × ((create w).0 ≡ err e)) × ((create w).1.db ≡ w.db))
        ⊎ ((agent : PcAgent) × (find (PcAgents.has_id pc_agent_id) w.pc_agents ≡ some agent)
            × (agent.id ≡ pc_agent_id)
            × (create w ≡ record_of agent (record w { steps = w.steps + 1 })))
  unfolding create_alert_from_agent alert_of_agent instant PcAgents.find_by_id query statement
      record_of
  create_cases w = elim (Bool-cases (is_empty pc_agent_id || is_empty alert_type)) [
    | inl e ↦ inl ((usecase UsecaseError.invalid_input, rw e refl), rw e refl)
    | inr e ↦ elim (Bool-cases (env.db_fails w.steps)) [
      | inl f ↦ inl ((db_failed, rw e (rw f refl)), rw e (rw f refl))
      | inr f ↦ elim (Option-cases (find (PcAgents.has_id pc_agent_id) w.pc_agents)) [
        | inl g ↦ inl (
          (usecase UsecaseError.pc_agent_not_found, rw e (rw (f, g) refl)),
          rw e (rw (f, g) refl),
        )
        | inr (agent, g) ↦ elim (Bool-cases (is_empty (trim_space agent.user_id))) [
          | inl u ↦ inl (
            (usecase UsecaseError.pc_agent_not_found, rw e (rw (f, g, u) refl)),
            rw e (rw (f, g, u) refl),
          )
          | inr u ↦ inr (
            agent,
            g,
            (text_eq_iff agent.id pc_agent_id).0 (find_sound _ w.pc_agents agent g),
            rw e (rw (f, g, u, dated) refl),
          )
        ]
      ]
    ]
  ]

  recorded-HasRecent :
      (agent : PcAgent) (w : World) (created : Created)
      → find (PcAgents.has_id pc_agent_id) w.pc_agents ≡ some agent
      → agent.id ≡ pc_agent_id
      → (record_of agent w).0 ≡ ok created
      → HasRecent env notifications agent alert_type input.message at (record_of agent w).1.db
  unfolding record_of
  recorded-HasRecent agent w created known named h =
      record_alert-HasRecent env notifications agent alert_type input.message at w created
        (subst (λ (i : Text). find (PcAgents.has_id i) w.pc_agents ≡ some agent) (sym named) known)
        h

  create_again :
      (agent : PcAgent) (v : World)
      → agent.id ≡ pc_agent_id
      → HasRecent env notifications agent alert_type input.message at v.db
      → (create v).1.db ≡ v.db
  unfolding record_of
  create_again agent v named recent = elim (create_cases v) [
    | inl (stopped, same) ↦ same
    | inr (agent', found, named', ran) ↦
        (let found' : find (PcAgents.has_id pc_agent_id) v.pc_agents ≡ some agent =
            subst (λ (i : Text). find (PcAgents.has_id i) v.pc_agents ≡ some agent) named
              recent.0 in
          let same_agent : agent' ≡ agent = cc (found, found') in
          rw (ran, same_agent)
            (record_alert_idle env notifications agent alert_type input.message at
              (record v { steps = v.steps + 1 }) recent))
  ]

  -- Once CreateAlertFromAgent has accepted an alert with an instant, the same alert delivered again,
  -- at any later time and with no other request in between, changes no table: it is not stored twice
  -- and removes no token of a device.
  pub create_alert_once :
      (w : World) (created : Created) (n : ℕ)
      → (create w).0 ≡ ok created
      → (create (record (create w).1 { steps = n })).1.db ≡ (create w).1.db
  create_alert_once w created n h = elim (create_cases w) [
    | inl ((e, stopped), same) ↦ absurd (cc (stopped, h))
    | inr (agent, found, named, ran) ↦
        create_again agent (record (create w).1 { steps = n }) named
          (rw ran (
            recorded-HasRecent agent (record w { steps = w.steps + 1 }) created found named
              (rw ran at h)))
  ]
