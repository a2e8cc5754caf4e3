-- ===== src/Investigation/Core/Starting/Attempts.antt =====
-- packages/incident/investigations.py: the attempts of an incident.
use incident_triage.Base.{
  ℕ, ◌≡◌, refl, suc, inl, inr, true, false, Option, none, some, List, [], ◌∷◌, ◌==◌, nat_eq,
  Bool-cases, length, arith, ap, ◌∙◌, subst, sym, All, ==_refl, ◌+◌,
}
use incident_triage.Errors.{ok, After, IsOk}
use incident_triage.Incident.Status.{IncidentStatus, incident_status_eq}
use incident_triage.Incident.Row.{
  IncidentRow, AlertRow, transition_incident_status, count_firing_alerts,
}
use incident_triage.Investigation.Rows.{InvestigationRow, is_terminal}
use incident_triage.Investigation.Core.Starting.{
  Store, StartedInvestigation, open_investigation, is_startable, request_for, request_of,
  request_investigation, is_due,
}

-- Numbered n, ..., 2, 1, of which only the newest may be open.
abbrev pub IsAttempts : List InvestigationRow → Type 0
IsAttempts [] = Unit
IsAttempts (r ∷ rows) =
    (r.attempt_number ≡ suc (length rows))
    × All (λ s. is_terminal s.status ≡ true) rows
    × IsAttempts rows

abbrev pub attempt_count_of : Option IncidentRow → ℕ
attempt_count_of none = 0
attempt_count_of (some incident) = incident.attempt_count

pub record IsOrderly (store : Store) : Type 0 where
  pub attempts : IsAttempts store.investigations
  pub counted : length store.investigations ≡ attempt_count_of store.incident

all_terminal :
    (rows : List InvestigationRow)
    → open_investigation rows ≡ none
    → All (λ r. is_terminal r.status ≡ true) rows
all_terminal [] e = tt
all_terminal (r ∷ rows) e = elim (Bool-cases (is_terminal r.status)) [
  | inl ended ↦ (ended, all_terminal rows (rw ended at e))
  | inr unfinished ↦ cc (rw unfinished at e)
]

transition_same :
    (incident : IncidentRow) (status : IncidentStatus) (now : ℕ)
    → transition_incident_status incident incident status now
      ≡ some (record incident { status = status; version = incident.version + 1; updated_at = now })
unfolding transition_incident_status
transition_same incident status now = rw (==_refl incident.version) refl

request_for-IsOrderly :
    (id now : ℕ) (incident : IncidentRow) (existing : Option InvestigationRow) (store : Store)
    → open_investigation store.investigations ≡ existing
    → store.incident ≡ some incident
    → IsOrderly store
    → After (λ out. IsOrderly out.0) (request_for id now incident existing store)
unfolding request_for
request_for-IsOrderly id now incident (some existing) store e here o = o
request_for-IsOrderly id now incident none store e here o =
    elim (Bool-cases (is_startable incident.status)) [
      | inr refused ↦ rw (refused, After) tt
      | inl startable ↦ elim (Bool-cases (count_firing_alerts store.alerts == 0)) [
        | inl quiet ↦ rw (startable, quiet, After) tt
        | inr firing ↦
            let counted : length store.investigations ≡ incident.attempt_count =
              o.counted ∙ ap attempt_count_of here in
            rw
              (
                startable,
                firing,
                transition_same (record incident { attempt_count = incident.attempt_count + 1 })
                    IncidentStatus.investigating now,
                After,
              )
              (record {
                attempts =
                    (omega (arith, counted), all_terminal store.investigations e, o.attempts);
                counted = omega (arith, counted);
              })
      ]
    ]

request_of-IsOrderly :
    (id now : ℕ) (found : Option IncidentRow) (store : Store)
    → store.incident ≡ found
    → IsOrderly store
    → After (λ out. IsOrderly out.0) (request_of id now found store)
request_of-IsOrderly id now none store e o = tt
request_of-IsOrderly id now (some incident) store e o =
    request_for-IsOrderly id now incident _ store refl e o

-- Requests keep the attempts of an incident in order: they are numbered 1, 2, ... and counted by
-- the incident, and only the newest may be open.
pub request_investigation-IsOrderly :
    (id now : ℕ) (store : Store)
    → IsOrderly store
    → After (λ out. IsOrderly out.0) (request_investigation id now store)
unfolding request_investigation
request_investigation-IsOrderly id now store o =
    request_of-IsOrderly id now store.incident store refl o

-- What a request that commits leaves: the incident, and the investigation that it returned, open.
abbrev IsStarted : Store → StartedInvestigation → Type 0
IsStarted store started =
    ((incident : IncidentRow) × (store.incident ≡ some incident))
    × ((r : InvestigationRow) × (open_investigation store.investigations ≡ some r)
        × (r.id ≡ started.investigation_id))

request_for-IsStarted :
    (id now : ℕ) (incident : IncidentRow) (existing : Option InvestigationRow) (store : Store)
    → open_investigation store.investigations ≡ existing
    → store.incident ≡ some incident
    → After (λ out. IsStarted out.0 out.1) (request_for id now incident existing store)
unfolding request_for
request_for-IsStarted id now incident (some existing) store e here =
    ((incident, here), (existing, e, refl))
request_for-IsStarted id now incident none store e here =
    elim (Bool-cases (is_startable incident.status)) [
      | inr refused ↦ rw (refused, After) tt
      | inl startable ↦ elim (Bool-cases (count_firing_alerts store.alerts == 0)) [
        | inl quiet ↦ rw (startable, quiet, After) tt
        | inr firing ↦
            rw
              (
                startable,
                firing,
                transition_same (record incident { attempt_count = incident.attempt_count + 1 })
                    IncidentStatus.investigating now,
                After,
              )
              ((_, refl), (_, refl, refl))
      ]
    ]

request_of-IsStarted :
    (id now : ℕ) (found : Option IncidentRow) (store : Store)
    → store.incident ≡ found
    → After (λ out. IsStarted out.0 out.1) (request_of id now found store)
request_of-IsStarted id now none store e = tt
request_of-IsStarted id now (some incident) store e =
    request_for-IsStarted id now incident _ store refl e

again :
    (id now : ℕ) (store : Store) (started : StartedInvestigation)
    → IsStarted store started
    → request_investigation id now store
      ≡ ok (store, record { investigation_id = started.investigation_id; created = false })
unfolding request_investigation request_for
again id now store started ((incident, here), (r, found, same)) =
    ap (λ i. request_of id now i store) here
    ∙ ap (λ o. request_for id now incident o store) found
    ∙ ap (λ i. ok (store, record { investigation_id = i; created = false })) same

-- Requesting an investigation again returns the one that the first request returned, and changes
-- nothing.
pub request_investigation-idempotent :
    (id now id' later : ℕ) (store store' : Store) (started : StartedInvestigation)
    → request_investigation id now store ≡ ok (store', started)
    → request_investigation id' later store'
      ≡ ok (store', record { investigation_id = started.investigation_id; created = false })
unfolding request_investigation
request_investigation-idempotent id now id' later store store' started e =
    again id' later store' started (
      subst (After (λ out. IsStarted out.0 out.1)) e
        (request_of-IsStarted id now store.incident store refl))

due_status :
    (debounce now created_at : ℕ) (status : IncidentStatus) (alerts : List AlertRow)
    → is_due debounce now created_at status alerts ≡ true
    → (is_startable status ≡ true) × ((count_firing_alerts alerts == 0) ≡ false)
unfolding is_due
due_status debounce now created_at status alerts due = ground (arith, due)

due_for :
    (id now : ℕ) (incident : IncidentRow) (existing : Option InvestigationRow) (store : Store)
    → is_startable incident.status ≡ true
    → (count_firing_alerts store.alerts == 0) ≡ false
    → IsOk (request_for id now incident existing store)
unfolding request_for
due_for id now incident (some existing) store startable firing = tt
due_for id now incident none store startable firing =
    rw
      (
        startable,
        firing,
        transition_same (record incident { attempt_count = incident.attempt_count + 1 })
            IncidentStatus.investigating now,
        IsOk,
      )
      tt

-- A request for an incident that `due_for_investigation` lists succeeds.
pub request_investigation-due :
    (id now debounce created_at : ℕ) (incident : IncidentRow) (store : Store)
    → store.incident ≡ some incident
    → is_due debounce now created_at incident.status store.alerts ≡ true
    → IsOk (request_investigation id now store)
unfolding request_investigation
request_investigation-due id now debounce created_at incident store here due =
    let (startable, firing) = due_status debounce now created_at incident.status store.alerts due in
    subst (λ i. IsOk (request_of id now i store)) (sym here)
      (due_for id now incident _ store startable firing)
