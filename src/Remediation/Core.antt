-- ===== src/Remediation/Core.antt =====
-- packages/incident/remediations.py: the parts that the remediation commands share. A command
-- reads the clock once, as `now`; times are microseconds. Metrics, logs, actors and details of
-- the timeline are left out.
pub mod Approval
pub mod Execution
pub mod Report
pub mod Safety
pub mod Commands
pub mod Attempts
pub mod Completion
pub mod Lifecycle
pub mod Guards
pub mod Deciding
pub mod Fencing
pub mod KillSwitch
pub mod Context
pub mod Proposing
pub mod Revising
pub mod Tests
use incident_triage.Base.{
  ℕ, ◌+◌, ◌*◌, String, Bool, true, false, not, ◌&&◌, ◌||◌, Option, none, some, List, [], ◌∷◌, ◌++◌,
  map, if◌then◌else◌, ◌==◌, nat_eq, string_eq, option_eq, contains, is_some, Eq,
}
use incident_triage.Errors.{
  DomainError, concurrent_modification, remediation_state, Result, ok, err, ◌>>=◌,
}
use incident_triage.Incident.Status.{
  IncidentStatus, incident_status_eq, awaiting_approval, remediation_in_progress, escalated,
}
use incident_triage.Incident.Row.{IncidentRow, transition_incident_status}
use incident_triage.Remediation.Status.{RemediationStatus, can_transition}
use incident_triage.Remediation.Rows.{
  Code, TimelineEvent, Event, remediation_failed, incident_status_changed, RemediationRow, Db,
}

abbrev pub emit : Event → Db → Db
emit e db = record db { outbox = e ∷ db.outbox }

-- `_timeline`
abbrev pub note : TimelineEvent → Option RemediationStatus → RemediationStatus → Db → Db
note event from_status to_status db = record db {
  timeline =
      record { event = event; from_status = from_status; to_status = to_status } ∷ db.timeline;
}

-- `_transition`
unfoldable pub transition : ℕ → RemediationStatus → TimelineEvent → Db → Result Db
transition now to_status event db =
    if can_transition db.row.status to_status
    then ok (
        note event (some db.row.status) to_status (record db {
          row = record (db.row) {
            status = to_status;
            version = db.row.version + 1;
            updated_at = now;
          };
        }))
    else err remediation_state

-- `_move_incident`: only along the edges that the command owns; the incident is locked.
unfoldable pub move_incident : ℕ → List IncidentStatus → IncidentStatus → Db → Result Db
move_incident now from_statuses to_status db =
    if contains from_statuses db.incident.status
    then elim (transition_incident_status db.incident db.incident to_status now) [
      | none ↦ err concurrent_modification
      | some incident ↦ ok (
          emit (incident_status_changed db.incident.status incident.status incident.version)
            (record db { incident = incident }))
    ]
    else ok db

-- The assignments that end a remediation without success.
abbrev pub release : ℕ → Code → Db → Db
release now code db = record db {
  row = record (db.row) {
    failure_reason = some code;
    lease_owner = none;
    lease_expires_at = none;
    completed_at = some now;
  };
}

-- The incident's statuses from which a remediation that ends may move it.
abbrev pub under_remediation : List IncidentStatus
under_remediation = remediation_in_progress ∷ awaiting_approval ∷ []

unfoldable pub finish_failed : ℕ → Code → Db → Result Db
finish_failed now code db = do
  ended ← transition now RemediationStatus.failed TimelineEvent.failed (release now code db)
  move_incident now under_remediation escalated (emit remediation_failed ended)

unfoldable pub finish_cancelled : ℕ → TimelineEvent → Code → IncidentStatus → Event → Db → Result Db
finish_cancelled now event code incident_to event_type db = do
  ended ← transition now RemediationStatus.cancelled event (release now code db)
  move_incident now under_remediation incident_to (emit event_type ended)
