-- ===== src/Incident/Ingestion/Ending.antt =====
-- packages/incident/service.py: the end of an alert leaves no incident in triage without another.
use incident_triage.Base.{
  ℕ, ◌≡◌, refl, Bool, false, ◌&&◌, Option, none, some, ◌==◌, nat_eq, option_eq, find, Bool-cases,
  Option-cases, inl, inr, arith, ==→eq, subst, sym, ◌∙◌, string_eq,
}
use incident_triage.Errors.{After}
use incident_triage.Incident.Status.{IncidentStatus, incident_status_eq, triaging, cancelled}
use incident_triage.Incident.Row.{IncidentRow, transition_incident_status}
use incident_triage.Incident.Ingestion.{
  AlertRow, StoredIncident, Db, get_incident, put_incident, put_alert, count_firing_alerts, ended,
  end_alert, settle_incident,
}
use incident_triage.Incident.Ingestion.Numbering.{
  weight, count-put_alert, put_alert-HaveNumbers, get-put_incident, get-put_incident_other,
}
use incident_triage.Incident.Ingestion.Triage.{is_quiet, IsTended, more_alerts}

-- The end of an alert takes nothing from the other incidents.
ended_others :
    (now : ℕ) (p : AlertRow → Bool) (alert : AlertRow) (incident : StoredIncident) (db : Db)
    → find p db.alerts ≡ some alert
    → alert.incident_id ≡ some incident.row.id
    → get_incident incident.row.id db.incidents ≡ some incident
    → IsTended db
    → (id : ℕ) → (incident.row.id == id) ≡ false
    → is_quiet
        (get_incident id db.incidents)
        (count_firing_alerts id (put_alert (ended now alert) db.alerts))
      ≡ false
ended_others now p alert incident db found to_it here t id other =
    let apart : weight id alert ≡ 0 = rw (to_it, other) refl in
    more_alerts (get_incident id db.incidents) (count_firing_alerts id db.alerts) _
      (omega (
        arith,
        count-put_alert id p db.alerts alert (ended now alert) t.numbered found refl,
        apart,
      ))
      (t.tended id)

-- The alert ends, and with it an incident in triage for which no other fires.
transition_row :
    (stored seen : IncidentRow) (to_status : IncidentStatus) (now : ℕ) (row : IncidentRow)
    → transition_incident_status stored seen to_status now ≡ some row
    → (row.id ≡ stored.id) × (row.status ≡ to_status)
unfolding transition_incident_status
transition_row stored seen to_status now row e =
    elim (Bool-cases (stored.version == seen.version)) [
      | inl current ↦
          let same = rw current at e in
          (
            subst (λ (r : Option IncidentRow). id_of r ≡ stored.id) same refl,
            subst (λ (r : Option IncidentRow). status_of_row r ≡ to_status) same refl,
          )
      | inr stale ↦ cc (rw stale at e)
    ]
  where
    id_of : Option IncidentRow → ℕ
    id_of none = 0
    id_of (some r) = r.id

    status_of_row : Option IncidentRow → IncidentStatus
    status_of_row none = to_status
    status_of_row (some r) = r.status

-- A cancelled incident is not in triage.
closed_others :
    (closed incident : StoredIncident) (db : Db) (count : ℕ → ℕ)
    → closed.row.id ≡ incident.row.id
    → closed.row.status ≡ cancelled
    → get_incident incident.row.id db.incidents ≡ some incident
    → ((id : ℕ)
        → (incident.row.id == id) ≡ false
        → is_quiet (get_incident id db.incidents) (count id) ≡ false)
    → (id : ℕ) → is_quiet (get_incident id (put_incident closed db.incidents)) (count id) ≡ false
closed_others closed incident db count same ended here others id =
    elim (Bool-cases (closed.row.id == id)) [
      | inl this ↦
          let found =
            get-put_incident closed db.incidents
              (subst (λ k. get_incident k db.incidents ≡ some incident) (sym same) here) in
          subst
            (λ k. is_quiet (get_incident k (put_incident closed db.incidents)) (count k) ≡ false)
            (==→eq closed.row.id id this) (rw (found, ended) refl)
      | inr other ↦
          rw (get-put_incident_other id closed db.incidents other)
            (others id (subst (λ k. (k == id) ≡ false) same other))
    ]

pub end_alert-IsTended :
    (concurrent : IncidentRow → IncidentRow) (now : ℕ) (p : AlertRow → Bool) (alert : AlertRow)
    (incident : StoredIncident) (db : Db)
    → ((r : IncidentRow) → (concurrent r).id ≡ r.id)
    → find p db.alerts ≡ some alert
    → alert.incident_id ≡ some incident.row.id
    → get_incident incident.row.id db.incidents ≡ some incident
    → IsTended db
    → After IsTended (end_alert concurrent now alert incident db)
unfolding end_alert settle_incident
end_alert-IsTended concurrent now p alert incident db same_row found to_it here t =
    let alerts = put_alert (ended now alert) db.alerts in
    let numbered = put_alert-HaveNumbers (ended now alert) db.alerts t.numbered in
    let others = ended_others now p alert incident db found to_it here t in
    let remaining = count_firing_alerts incident.row.id alerts in
    elim (Bool-cases ((remaining == 0) && (incident.row.status == triaging))) [
      | inr goes_on ↦
          rw (goes_on, After)
            (record {
              numbered = numbered;
              tended = λ id. elim (Bool-cases (incident.row.id == id)) [
                | inl same ↦
                    subst
                      (λ k.
                        is_quiet (get_incident k db.incidents) (count_firing_alerts k alerts)
                        ≡ false)
                      (==→eq incident.row.id id same) (rw here (ground (arith, goes_on)))
                | inr other ↦ others id other
              ];
            })
      | inl ends ↦
          elim (Option-cases
            (transition_incident_status (concurrent incident.row) incident.row cancelled now)) [
              | inl lost ↦ rw (ends, lost, After) tt
              | inr (row, moved) ↦
                  let closed = record incident { row = row; closed_at = some now } in
                  let of_row =
                    transition_row (concurrent incident.row) incident.row cancelled now row moved in
                  let id_same : row.id ≡ incident.row.id = of_row.0 ∙ same_row incident.row in
                  rw (ends, moved, After)
                    (record {
                      numbered = numbered;
                      tended =
                          closed_others closed incident db (λ k. count_firing_alerts k alerts)
                            id_same of_row.1 here others;
                    })
            ]
    ]
