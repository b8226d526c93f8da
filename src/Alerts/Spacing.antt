-- ===== src/Alerts/Spacing.antt =====
-- Duplicate suppression: the alerts of one agent and one type stand more than the window apart, in
-- the order in which they were stored.
use datn_backend.Prelude.{
  ℕ, ◌+◌, ◌-◌, ◌<◌, ◌≡◌, refl, ap, inl, inr, Bool, true, false, none, some, List, [], ◌∷◌, ◌++◌,
  All, arith, Bool-cases, Option-cases,
}
use datn_backend.Prelude.Tables.{find, select, newest, delete, All-delete}
use datn_backend.Text.{text_eq, text_eq_iff}
use datn_backend.Domain.Alerts.{AlertRow}
use datn_backend.Domain.Pairing.{PcAgent}
use datn_backend.Repo.Alerts.{Joined, join_agents, is_recent, triggered_at}
use datn_backend.Repo.PcAgents.{has_id}
use datn_backend.Alerts.{duplicate_alert_window}

-- The second alert, of the same agent and type, is more than the window after the first.
abbrev pub IsApart : AlertRow → AlertRow → Type 0
IsApart x y =
    text_eq x.pc_agent_id y.pc_agent_id ≡ true
    → text_eq x.alert_type y.alert_type ≡ true
    → x.triggered_at + duplicate_alert_window < y.triggered_at

abbrev pub Spaced : List AlertRow → Type 0
Spaced [] = Unit
Spaced (x ∷ xs) = All (IsApart x) xs × Spaced xs

pub Spaced-append :
    (xs : List AlertRow) (y : AlertRow)
    → Spaced xs
    → All (λ x. IsApart x y) xs
    → Spaced (xs ++ y ∷ [])
Spaced-append [] y s a = (tt, tt)
Spaced-append (x ∷ xs) y s a = (All-snoc xs s.0 a.0, Spaced-append xs y s.1 a.1)
  where
    All-snoc :
        (ys : List AlertRow) → All (IsApart x) ys → IsApart x y → All (IsApart x) (ys ++ y ∷ [])
    All-snoc [] h k = (k, tt)
    All-snoc (z ∷ zs) h k = (h.0, All-snoc zs h.1 k)

pub Spaced-delete : (p : AlertRow → Bool) (xs : List AlertRow) → Spaced xs → Spaced (delete p xs)
unfolding delete
Spaced-delete p [] s = tt
Spaced-delete p (x ∷ xs) s = elim (Bool-cases (p x)) [
  | inl e ↦ rw e (Spaced-delete p xs s.1)
  | inr e ↦ rw e (All-delete (IsApart x) p xs s.0, Spaced-delete p xs s.1)
]

newest-none {ℓ} : {A : Type ℓ} (key : A → ℕ) (xs : List A) → newest key xs ≡ none → xs ≡ []
unfolding newest
newest-none key [] h = refl
newest-none key (x ∷ xs) h = cc

module _ (agents : List PcAgent) (agent : PcAgent) (y : AlertRow)
    (known : find (has_id y.pc_agent_id) agents ≡ some agent) where
  abbrev recent : Joined → Bool
  recent = is_recent y.pc_agent_id y.alert_type (y.triggered_at - duplicate_alert_window)

  -- An alert of no agent in the table is of another agent.
  orphan-IsApart : (x : AlertRow) → find (has_id x.pc_agent_id) agents ≡ none → IsApart x y
  orphan-IsApart x e same typed =
      let joined : x.pc_agent_id ≡ y.pc_agent_id =
        (text_eq_iff x.pc_agent_id y.pc_agent_id).0 same in
      absurd (cc (ap (λ i. find (has_id i) agents) joined))

  old-IsApart : (x : AlertRow) (a : PcAgent) → recent (x, a) ≡ false → IsApart x y
  old-IsApart x a e same typed = ground arith

  -- No recent alert is found: every alert is apart from a new one.
  IsApart-of_none :
      (rows : List AlertRow)
      → select recent (join_agents agents rows) ≡ []
      → All (λ x. IsApart x y) rows
  unfolding select join_agents
  IsApart-of_none [] h = tt
  IsApart-of_none (x ∷ rows) h = elim (Option-cases (find (has_id x.pc_agent_id) agents)) [
    | inl e ↦ (orphan-IsApart x e, IsApart-of_none rows (rw e at h))
    | inr (a, e) ↦ elim (Bool-cases (recent (x, a))) [
      | inl t ↦ absurd (ground arith)
      | inr t ↦ (old-IsApart x a t, IsApart-of_none rows (ground arith))
    ]
  ]

  pub IsApart-of_newest :
      (rows : List AlertRow)
      → newest triggered_at (select recent (join_agents agents rows)) ≡ none
      → All (λ x. IsApart x y) rows
  IsApart-of_newest rows h = IsApart-of_none rows (newest-none triggered_at _ h)
