-- ===== src/Remediation/Core/Report.antt =====
-- packages/incident/remediations.py: `complete_execution`, the creation of the verification,
-- `record_baseline` and `pending_executions`.
use incident_triage.Base.{
  ℕ, ◌+◌, String, Bool, true, false, not, ◌&&◌, ◌||◌, Option, none, some, List, [], ◌∷◌, map,
  if◌then◌else◌, ◌==◌, nat_eq, string_eq, option_eq, find, ltb, is_some,
}
use incident_triage.Errors.{
  lease_lost, remediation_not_found, unexpected, Result, ok, err, ◌>>=◌, ◌>>◌, raise_if,
}
use incident_triage.Incident.Status.{remediation_in_progress, verifying}
use incident_triage.Remediation.Status.{RemediationStatus, remediation_status_eq}
use incident_triage.Remediation.Catalog.{ActionCatalogEntry, get_entry}
use incident_triage.Remediation.Rows.{
  ExecutionStatus, Code, TimelineEvent, remediation_executed, verification_requested,
  RemediationRow, ExecutionRow, BaselineRow, Db,
}
use incident_triage.Remediation.Core.{emit, note, transition, move_incident, finish_failed}
use incident_triage.Verification.Policy.{VerificationPolicy}
use incident_triage.Verification.Spec.{Baseline, build_spec}
use incident_triage.Remediation.Core.Execution.{Environment, is_open}

-- The executor's report.
pub data Outcome : Type 0 where
  succeeded failed timed_out : Outcome

abbrev pub is_success : Outcome → Bool
is_success succeeded = true
is_success _ = false

abbrev pub status_of : Outcome → ExecutionStatus
status_of succeeded = ExecutionStatus.succeeded
status_of failed = ExecutionStatus.failed
status_of timed_out = ExecutionStatus.timed_out

abbrev pub code_of : Outcome → Code
code_of timed_out = Code.timed_out
code_of _ = Code.failed

abbrev pub find_execution : ℕ → List ExecutionRow → Option ExecutionRow
find_execution id = find (λ e. e.id == id)

abbrev pub settle_execution : ℕ → ℕ → ExecutionStatus → List ExecutionRow → List ExecutionRow
settle_execution id now status =
    map (λ e. if e.id == id then record e { status = status; completed_at = some now } else e)

-- The verification policy of an action that is no longer in the catalog.
abbrev no_verification : VerificationPolicy
no_verification = record {
  grace_seconds = 0;
  window_seconds = 0;
  poll_interval_seconds = 1;
  required_consecutive = 1;
  baseline_required = false;
  checks = [];
}

abbrev pub verification_policy : Option ActionCatalogEntry → VerificationPolicy
verification_policy none = no_verification
verification_policy (some e) = e.verification

abbrev pub baseline_values : Option BaselineRow → Option Baseline
baseline_values none = none
baseline_values (some b) = some b.values

-- `_request_verification`
unfoldable pub request_verification : Environment → Option ActionCatalogEntry → Db → Result Db
request_verification env entry db =
    elim (build_spec env.builtins (verification_policy entry) db.row.action_id db.row.parameters
      (baseline_values db.baseline) env.time_scale) [
        | none ↦ err unexpected
        | some spec ↦ ok (
            emit (verification_requested db.next_id) (
              note TimelineEvent.verification_requested (some RemediationStatus.executed)
                RemediationStatus.executed
                (record db {
                  row = record (db.row) { verification_ref = some db.next_id };
                  verifications = record { id = db.next_id; spec = spec } ∷ db.verifications;
                  next_id = db.next_id + 1;
                })))
      ]

unfoldable pub complete_success :
    Environment → ℕ → ExecutionRow → Option ActionCatalogEntry → Db → Result Db
complete_success env now execution entry db = do
  let settled = record db {
    executions = settle_execution execution.id now ExecutionStatus.succeeded db.executions;
    row = record (db.row) {
      execution_status = some ExecutionStatus.succeeded;
      lease_owner = none;
      lease_expires_at = none;
      completed_at = some now;
    };
  }
  done ← transition now RemediationStatus.executed TimelineEvent.executed settled
  requested ← request_verification env entry (emit remediation_executed done)
  move_incident now (remediation_in_progress ∷ []) verifying requested

abbrev pub can_retry : Option ActionCatalogEntry → Bool → RemediationRow → Bool
can_retry none retryable row = false
can_retry (some entry) retryable row =
    entry.retry_safe && retryable && ltb row.execution_attempts entry.max_attempts

unfoldable pub complete_failure :
    ℕ → Outcome → Bool → ExecutionRow → Option ActionCatalogEntry → Db → Result Db
complete_failure now outcome retryable execution entry db =
    let settled = record db {
      executions = settle_execution execution.id now (status_of outcome) db.executions;
      row = record (db.row) { execution_status = some (status_of outcome) };
    } in
    if can_retry entry retryable db.row
    then ok (
        note TimelineEvent.execution_attempt_failed (some RemediationStatus.executing)
          RemediationStatus.executing
          (record settled {
            row = record (settled.row) { lease_owner = none; lease_expires_at = none };
          }))
    else finish_failed now (code_of outcome) settled

unfoldable pub complete_open :
    Environment → ℕ → Outcome → Bool → ExecutionRow → Option ActionCatalogEntry → Db → Result Db
complete_open env now outcome retryable execution entry db =
    if is_success outcome
    then complete_success env now execution entry db
    else complete_failure now outcome retryable execution entry db

abbrev pub is_executing : RemediationRow → Bool
is_executing row = row.status == RemediationStatus.executing

unfoldable pub complete_found :
    Environment → String → Outcome → Bool → ℕ → Option ExecutionRow → Db → Result Db
complete_found env owner outcome retryable now none db = err remediation_not_found
complete_found env owner outcome retryable now (some execution) db =
    if not (is_executing db.row)
    then ok db
    else if not (db.row.lease_owner == some owner)
    then err lease_lost
    else if not (is_open execution.status)
    then ok db
    else complete_open env now outcome retryable execution (get_entry db.row.action_id) db

unfoldable pub complete_execution : Environment → String → ℕ → Outcome → Bool → ℕ → Db → Result Db
complete_execution env owner execution_id outcome retryable now db =
    complete_found env owner outcome retryable now (find_execution execution_id db.executions) db

unfoldable pub record_baseline : String → ℕ → Baseline → List ℕ → Db → Result Db
record_baseline owner now values evidence_ids db = do
  raise_if (not (db.row.lease_owner == some owner) || not (is_executing db.row)) lease_lost
  if is_some db.baseline
      then ok db
      else ok (
          note TimelineEvent.baseline_captured (some RemediationStatus.executing)
            RemediationStatus.executing
            (record db {
              baseline =
                  some (record { values = values; evidence_ids = evidence_ids; captured_at = now });
            }))

-- `pending_executions`, of one remediation.
unfoldable pub is_pending_execution : ℕ → RemediationRow → Bool
is_pending_execution now row =
    (row.status == RemediationStatus.approved)
    || ((row.status == RemediationStatus.executing)
        && elim row.lease_expires_at [ none ↦ true | some t ↦ ltb t now ])
