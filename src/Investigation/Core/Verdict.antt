-- ===== src/Investigation/Core/Verdict.antt =====
-- packages/incident/investigations.py: what `complete` does to an investigation and its incident.
use incident_triage.Base.{
  ℕ, ◌≡◌, refl, inl, inr, String, true, List, [], ◌∷◌, nat_eq, ◌==◌, Bool-cases, if◌then◌else◌, ap,
}
use incident_triage.Errors.{ok}
use incident_triage.Incident.Status.{IncidentStatus, incident_status_eq, rca_ready}
use incident_triage.Incident.Row.{IncidentRow, transition_incident_status}
use incident_triage.Investigation.Conclusion.{StoppingCriteria, FinalInvestigationResult}
use incident_triage.Investigation.Rows.{InvestigationStatus, Change, root_cause_selected, Db}
use incident_triage.Investigation.Core.{holds, append_step}
use incident_triage.Investigation.Core.Outcome.{
  complete, complete_with, accept, move_incident, Objection, objections, reject_conclusion,
  conclude,
}
use incident_triage.Investigation.Core.Completion.{objections-IsUnopposed}

-- Of a conclusion without objections, and of one with some.
abbrev pub IsVerdict : Db → List Objection → Db → Type 0
IsVerdict db [] after =
    (after.row.status ≡ InvestigationStatus.completed)
    × (after.incident.status ≡ (
        if db.incident.status == IncidentStatus.investigating
        then rca_ready
        else db.incident.status))
IsVerdict db (o ∷ os) after =
    (after.row ≡ db.row)
    × (after.hypotheses ≡ db.hypotheses)
    × (after.reports ≡ db.reports)
    × (after.incident ≡ db.incident)
    × (after.outbox ≡ db.outbox)

-- The incident moves if it is being investigated, and no command fails.
move_incident-moves :
    (stored : IncidentRow) (now : ℕ) (to_status : IncidentStatus) (reason : Change) (db : Db)
    → (stored.version == db.incident.version) ≡ true
    → (db' : Db) × (move_incident stored now to_status reason db ≡ ok db')
      × (db'.row ≡ db.row)
      × (db'.incident.status ≡ (
          if db.incident.status == IncidentStatus.investigating
          then to_status
          else db.incident.status))
unfolding move_incident transition_incident_status
move_incident-moves stored now to_status reason db current =
    elim (Bool-cases (db.incident.status == IncidentStatus.investigating)) [
      | inl under_way ↦ rw (under_way, current) (_, refl, refl, refl)
      | inr left ↦ rw left (db, refl, refl, refl)
    ]

module _ (stored : IncidentRow) (criteria : StoppingCriteria) (decimal : ℕ → ℕ) (iteration : ℕ)
    (call_id : String) (result : FinalInvestigationResult) (now : ℕ) (db : Db) where
  complete_with-IsVerdict :
      (os : List Objection)
      → objections criteria result db ≡ os
      → (stored.version == db.incident.version) ≡ true
      → (db' : Db) × (complete_with stored decimal iteration call_id result now os db
          ≡ ok (db', os))
        × IsVerdict db os db'
  unfolding complete_with accept reject_conclusion append_step
  complete_with-IsVerdict (o ∷ os) e current = (_, refl, (refl, refl, refl, refl, refl))
  complete_with-IsVerdict [] e current =
      let (h, u) = (objections-IsUnopposed criteria result db).0 e in
      let (moved, m, same, status) =
        move_incident-moves stored now rca_ready root_cause_selected
          (conclude decimal iteration call_id result now h db) current in
      rw (u.found, m) (_, refl, (ap (λ r. r.status) same, status))

  -- A worker that holds the lease gets a verdict on its conclusion if the incident was not changed
  -- meanwhile: the conclusion is accepted exactly when there is no objection. Accepted, the
  -- investigation is completed and its incident ready with a root cause, if it was being
  -- investigated; not accepted, investigation, hypotheses, reports, incident and events are as
  -- before.
  pub complete-IsVerdict :
      (owner : String)
      → holds owner db.row ≡ true
      → (stored.version == db.incident.version) ≡ true
      → (db' : Db) × (complete stored criteria decimal owner iteration call_id result now db
          ≡ ok (db', objections criteria result db))
        × IsVerdict db (objections criteria result db) db'
  unfolding complete
  complete-IsVerdict owner held current =
      rw held (complete_with-IsVerdict (objections criteria result db) refl current)
