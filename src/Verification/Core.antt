-- ===== src/Verification/Core.antt =====
-- packages/incident/verifications.py: the verification commands. A command reads the clock once,
-- as `now`; times are microseconds. Metrics, logs and the `actor` texts are left out.
pub mod Polling
pub mod Streak
pub mod Verdict
pub mod Fencing
pub mod Recording
pub mod Reachable
pub mod Absorbing
pub mod Tests
use incident_triage.Base.{
  ℕ, ◌+◌, ◌*◌, String, Bool, true, false, not, ◌&&◌, ◌||◌, Option, none, some, List, [], ◌∷◌, ◌++◌,
  map, if◌then◌else◌, ◌==◌, nat_eq, string_eq, option_eq, leb, ltb, filter, length, contains, any,
  is_some, is_empty,
}
use incident_triage.Builtins.{Builtins}
use incident_triage.Errors.{
  DomainError, lease_lost, concurrent_modification, Result, ok, err, ◌>>=◌, ◌>>◌, raise_if,
}
use incident_triage.Incident.Status.{
  IncidentStatus, incident_status_eq, verifying, resolved, escalated, verification_failed,
}
use incident_triage.Incident.Row.{
  IncidentRow, AlertRow, transition_incident_status, count_firing_alerts,
}
use incident_triage.Remediation.Status.{RemediationStatus, remediation_status_eq, executed}
use incident_triage.Verification.Policy.{
  VerificationStatus, pending, running, passed, failed, timed_out,
}
use incident_triage.Verification.Spec.{VerificationSpec}
use incident_triage.Verification.Sample.{Sample, ObservationResult, evaluate_sample}
use incident_triage.Verification.Decision.{Decision, decide}
use incident_triage.Verification.Rows.{
  NextAction, no_action, resolve, escalate, reinvestigate, Staleness, incident_moved,
  remediation_moved, newer_verification, newer_remediation, VerificationRow, ObservationRow,
  EvidenceLink, Change, Event, verification_started, verification_completed,
  incident_status_changed, incident_resolved, incident_escalated, Db,
}

pub record VerificationTicket : Type 0 where
  pub verification_id : ℕ
  pub incident_id : ℕ
  pub remediation_id : ℕ
  pub spec : VerificationSpec
  pub owner : String
  pub claim_attempt : ℕ

-- `row.status == status`
abbrev pub is_running : VerificationStatus → Bool
is_running running = true
is_running _ = false

abbrev pub is_pending : VerificationStatus → Bool
is_pending pending = true
is_pending _ = false

abbrev pub emit : Event → Db → Db
emit e db = record db { outbox = e ∷ db.outbox }

-- `_start`
unfoldable pub begin : ℕ → Db → Db
begin now db = emit verification_started (record db {
  row = record (db.row) {
    status = running;
    started_at = some now;
    known_alert_ids = map (λ a. a.id) db.alerts;
    grace_until = some (now + db.row.spec.grace);
    deadline_at = some (now + db.row.spec.timeout);
    next_poll_at = some (now + db.row.spec.grace);
    updated_at = now;
  };
})

unfoldable pub start : ℕ → Db → Db
start now db = if is_pending db.row.status then begin now db else db

unfoldable pub staleness : Db → Option Staleness
staleness db =
    if not (db.incident.status == verifying)
    then some (incident_moved db.incident.status)
    else if not (db.remediation.status == executed)
    then some (remediation_moved db.remediation.status)
    else if not (db.remediation.verification_ref == some db.row.id)
    then some newer_verification
    else if any (λ created_at. ltb db.remediation.created_at created_at) db.remediations
    then some newer_remediation
    else none

-- `_move`; the incident is locked, and is the row that is seen.
unfoldable pub move_incident : ℕ → IncidentStatus → Change → Db → Result Db
move_incident now to_status reason db =
    elim (transition_incident_status db.incident db.incident to_status now) [
      | none ↦ err concurrent_modification
      | some incident ↦ ok (
          emit (incident_status_changed db.incident.status incident.status reason incident.version)
            (record db { incident = incident }))
    ]

abbrev pub set_next_action : NextAction → Db → Db
set_next_action a db = record db { row = record (db.row) { next_action = some a } }

-- The events that close the loop carry the incident's status after the change.
abbrev pub close_resolved : Db → Db
close_resolved db = emit (incident_resolved db.incident.status) db

abbrev pub close_escalated : Db → Db
close_escalated db = emit (incident_escalated db.incident.status) db

unfoldable pub apply_failure : ℕ → ℕ → Db → Result Db
apply_failure max_attempts now db = do
  moved ← move_incident now verification_failed Change.verification_failed db
  let firing = count_firing_alerts moved.alerts
  if ltb moved.incident.attempt_count max_attempts && ltb 0 firing
      then ok (set_next_action reinvestigate moved)
      else do
        left ←
            move_incident now escalated Change.verification_failed (set_next_action escalate moved)
        ok (close_escalated left)

-- What a verdict does to the incident, unless it is stale.
unfoldable pub apply_verdict : ℕ → ℕ → VerificationStatus → Db → Result Db
apply_verdict max_attempts now passed db = do
  moved ← move_incident now resolved Change.verification_passed (set_next_action resolve db)
  ok (close_resolved moved)
apply_verdict max_attempts now timed_out db = do
  moved ← move_incident now escalated Change.verification_timed_out (set_next_action escalate db)
  ok (close_escalated moved)
apply_verdict max_attempts now _ db = apply_failure max_attempts now db

-- The assignments at the head of `_finalize`.
unfoldable pub settle : ℕ → Decision → VerificationRow → VerificationRow
settle now decision row = record row {
  status = decision.status;
  result = some decision.status;
  failure_reason = decision.reason;
  completed_at = some now;
  lease_owner = none;
  lease_expires_at = none;
  next_poll_at = none;
  updated_at = now;
}

abbrev pub announce : Db → Db
announce db = emit (verification_completed db.row.result db.row.next_action) db

-- The rest of `_finalize`: a stale verdict is recorded and leaves the incident alone.
unfoldable pub apply_unless_stale : ℕ → ℕ → VerificationStatus → Option Staleness → Db → Result Db
apply_unless_stale max_attempts now status (some s) settled = ok (
    announce (record settled {
      row = record (settled.row) { next_action = some no_action; not_applied = some s };
    }))
apply_unless_stale max_attempts now status none settled = do
  applied ← apply_verdict max_attempts now status settled
  ok (announce applied)

unfoldable pub finalize : ℕ → ℕ → Decision → Db → Result Db
finalize max_attempts now decision db =
    let settled = record db { row = settle now decision db.row } in
    apply_unless_stale max_attempts now decision.status (staleness settled) settled
