-- ===== src/Investigation/Core/Starting.antt =====
-- packages/incident/investigations.py: `request_investigation` and `due_for_investigation`. The
-- state is an incident with its alerts and investigations, the newest first. The model's names and
-- settings and the budget are left out. The new row's identifier is an argument.
pub mod Attempts
use incident_triage.Base.{
  ℕ, ◌+◌, String, Bool, true, false, not, ◌&&◌, ◌||◌, Option, none, some, List, [], ◌∷◌, ◌==◌,
  nat_eq, find, ltb, leb, if◌then◌else◌,
}
use incident_triage.Errors.{
  Result, ok, err, ◌>>=◌, ◌>>◌, raise_if, incident_not_found, invalid_incident_transition,
  concurrent_modification,
}
use incident_triage.Incident.Status.{
  IncidentStatus, incident_status_eq, triaging, verification_failed,
}
use incident_triage.Incident.Row.{
  IncidentRow, AlertRow, transition_incident_status, count_firing_alerts,
}
use incident_triage.Investigation.Rows.{
  InvestigationStatus, InvestigationRow, is_terminal, Change, investigation_started,
  reinvestigation_after_failed_verification, Event, incident_status_changed,
  investigation_started_event,
}

pub record Store : Type 0 where
  pub incident : Option IncidentRow
  pub alerts : List AlertRow
  pub investigations : List InvestigationRow
  pub outbox : List Event

pub record StartedInvestigation : Type 0 where
  pub investigation_id : ℕ
  pub created : Bool

-- The open investigation of the incident; two would be an error that the index on them excludes.
abbrev pub open_investigation : List InvestigationRow → Option InvestigationRow
open_investigation = find (λ r. not (is_terminal r.status))

abbrev pub is_startable : IncidentStatus → Bool
is_startable status =
    (status == IncidentStatus.triaging) || (status == IncidentStatus.verification_failed)

abbrev pub start_reason : IncidentStatus → Change
start_reason status =
    if status == IncidentStatus.triaging
    then investigation_started
    else reinvestigation_after_failed_verification

abbrev pub new_investigation : (id incident_id attempt now : ℕ) → InvestigationRow
new_investigation id incident_id attempt now = record {
  id = id;
  incident_id = incident_id;
  attempt_number = attempt;
  status = InvestigationStatus.created;
  iteration_count = 0;
  tool_call_count = 0;
  evidence_count = 0;
  usage = record {
    input_tokens = 0;
    output_tokens = 0;
    cache_read_tokens = 0;
    cache_creation_tokens = 0;
  };
  ended_because = none;
  selected_hypothesis = none;
  lease_owner = none;
  lease_expires_at = none;
  created_at = now;
  started_at = none;
  completed_at = none;
  updated_at = now;
}

-- The incident is moved and the attempt added; `incident` is the row with the attempt counted.
abbrev pub start_attempt :
    (id now : ℕ) → IncidentRow → Store → Result (Store × StartedInvestigation)
start_attempt id now incident store =
    elim (transition_incident_status incident incident IncidentStatus.investigating now) [
      | none ↦ err concurrent_modification
      | some moved ↦ ok (
        record store {
          incident = some moved;
          investigations =
              new_investigation id incident.id incident.attempt_count now ∷ store.investigations;
          outbox =
              investigation_started_event id incident.attempt_count
              ∷ (incident_status_changed incident.status moved.status (start_reason incident.status)
                    moved.version
                  ∷ store.outbox);
        },
        record { investigation_id = id; created = true },
      )
    ]

-- With the open investigation that there is.
unfoldable pub request_for :
    (id now : ℕ)
    → IncidentRow
    → Option InvestigationRow
    → Store
    → Result (Store × StartedInvestigation)
request_for id now incident (some existing) store =
    ok (store, record { investigation_id = existing.id; created = false })
request_for id now incident none store = do
  raise_if (not (is_startable incident.status)) invalid_incident_transition
  raise_if (count_firing_alerts store.alerts == 0) invalid_incident_transition
  start_attempt id now (record incident { attempt_count = incident.attempt_count + 1 }) store

abbrev pub request_of :
    (id now : ℕ) → Option IncidentRow → Store → Result (Store × StartedInvestigation)
request_of id now none store = err incident_not_found
request_of id now (some incident) store =
    request_for id now incident (open_investigation store.investigations) store

unfoldable pub request_investigation : (id now : ℕ) → Store → Result (Store × StartedInvestigation)
request_investigation id now store = request_of id now store.incident store

-- `due_for_investigation`, of one incident, which was created at `created_at`.
unfoldable pub is_due : (debounce now created_at : ℕ) → IncidentStatus → List AlertRow → Bool
is_due debounce now created_at status alerts =
    (((status == IncidentStatus.triaging) && leb (created_at + debounce) now)
      || (status == IncidentStatus.verification_failed))
    && not (count_firing_alerts alerts == 0)
