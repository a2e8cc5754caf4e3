-- ===== src/Remediation/Core/Completion.antt =====
-- packages/incident/remediations.py: the outcome of an attempt keeps a remediation safe.
use incident_triage.Base.{
  ℕ, ◌<◌, ◌≡◌, refl, Bool, true, Option, none, some, List, [], ◌∷◌, arith, String, Bool-cases,
  Option-cases, inl, inr, length, ◌==◌, is_some, nat_eq, string_eq, option_eq,
}
use incident_triage.Errors.{After, After-bind}
use incident_triage.Remediation.Status.{RemediationStatus, remediation_status_eq}
use incident_triage.Remediation.Catalog.{ActionCatalogEntry, get_entry}
use incident_triage.Remediation.Rows.{
  ExecutionRow, ExecutionStatus, TimelineEvent, Event, remediation_executed, RemediationRow, Db,
}
use incident_triage.Remediation.Core.{emit, transition}
use incident_triage.Remediation.Core.Execution.{Environment, approval_binds, is_open}
use incident_triage.Remediation.Core.Report.{
  Outcome, settle_execution, request_verification, complete_success, can_retry, complete_failure,
  complete_open, complete_found, complete_execution, is_executing, record_baseline, find_execution,
  is_success, status_of, verification_policy, baseline_values, code_of,
}
use incident_triage.Remediation.Core.Safety.{
  IsSafe, Within, move_incident-IsSafe, finish_failed-IsSafe,
}
use incident_triage.Verification.Spec.{Baseline, build_spec}

length-settle_execution :
    (id now : ℕ) (status : ExecutionStatus) (es : List ExecutionRow)
    → length (settle_execution id now status es) ≡ length es
length-settle_execution id now status [] = refl
length-settle_execution id now status (e ∷ es) =
    omega (arith, length-settle_execution id now status es)

-- Executed, with the verification still to be created.
record IsDone (db : Db) : Type 0 where
  counted : db.row.execution_attempts ≡ length db.executions
  bounded : Within (get_entry db.row.action_id) db.row.execution_attempts
  approved_first : 0 < db.row.execution_attempts → approval_binds db.approval db.row ≡ true
  is_executed : db.row.status ≡ RemediationStatus.executed
  unverified : db.verifications ≡ []

executed-IsDone :
    (now : ℕ) (db : Db)
    → IsSafe db
    → After IsDone (transition now RemediationStatus.executed TimelineEvent.executed db)
unfolding transition
executed-IsDone now db v = ground arith

request_verification-IsSafe :
    (env : Environment) (entry : Option ActionCatalogEntry) (db : Db)
    → IsDone db
    → After IsSafe (request_verification env entry db)
unfolding request_verification
request_verification-IsSafe env entry db d =
    elim (Option-cases (
      build_spec env.builtins (verification_policy entry) db.row.action_id db.row.parameters
        (baseline_values db.baseline) env.time_scale)) [
          | inl failed ↦ rw (failed, After) tt
          | inr (spec, built) ↦ rw (built, After) (ground arith)
        ]

emit-IsDone : (e : Event) (db : Db) → IsDone db → IsDone (emit e db)
emit-IsDone e db d = record {
  counted = d.counted;
  bounded = d.bounded;
  approved_first = d.approved_first;
  is_executed = d.is_executed;
  unverified = d.unverified;
}

complete_success-IsSafe :
    (env : Environment) (now : ℕ) (execution : ExecutionRow) (entry : Option ActionCatalogEntry)
    (db : Db)
    → db.row.status ≡ RemediationStatus.executing
    → IsSafe db
    → After IsSafe (complete_success env now execution entry db)
unfolding complete_success
complete_success-IsSafe env now execution entry db running v =
    After-bind IsDone IsSafe _ _
      (λ done d.
        After-bind IsSafe IsSafe (request_verification env entry (emit remediation_executed done)) _
          (λ requested w. move_incident-IsSafe now _ _ requested w)
          (request_verification-IsSafe env entry (emit remediation_executed done)
            (emit-IsDone remediation_executed done d)))
      (executed-IsDone now _ (
        ground (
          arith,
          length-settle_execution execution.id now ExecutionStatus.succeeded db.executions,
        )))

complete_failure-IsSafe :
    (now : ℕ) (outcome : Outcome) (retryable : Bool) (execution : ExecutionRow)
    (entry : Option ActionCatalogEntry) (db : Db)
    → IsSafe db
    → After IsSafe (complete_failure now outcome retryable execution entry db)
unfolding complete_failure
complete_failure-IsSafe now outcome retryable execution entry db v =
    let kept = length-settle_execution execution.id now (status_of outcome) db.executions in
    elim (Bool-cases (can_retry entry retryable db.row)) [
      | inl again ↦ rw (again, After) (ground arith)
      | inr over ↦ rw (over, After) (finish_failed-IsSafe now (code_of outcome) _ (ground arith))
    ]

complete_open-IsSafe :
    (env : Environment) (now : ℕ) (outcome : Outcome) (retryable : Bool) (execution : ExecutionRow)
    (entry : Option ActionCatalogEntry) (db : Db)
    → db.row.status ≡ RemediationStatus.executing
    → IsSafe db
    → After IsSafe (complete_open env now outcome retryable execution entry db)
unfolding complete_open
complete_open-IsSafe env now outcome retryable execution entry db running v =
    elim (Bool-cases (is_success outcome)) [
      | inl done ↦ rw (done, After) (complete_success-IsSafe env now execution entry db running v)
      | inr failed ↦
          rw (failed, After) (complete_failure-IsSafe now outcome retryable execution entry db v)
    ]

is_executing-eq :
    (row : RemediationRow) → is_executing row ≡ true → row.status ≡ RemediationStatus.executing
is_executing-eq row h = ground arith

complete_found-IsSafe :
    (env : Environment) (owner : String) (outcome : Outcome) (retryable : Bool) (now : ℕ)
    (found : Option ExecutionRow) (db : Db)
    → IsSafe db
    → After IsSafe (complete_found env owner outcome retryable now found db)
unfolding complete_found
complete_found-IsSafe env owner outcome retryable now none db v = tt
complete_found-IsSafe env owner outcome retryable now (some execution) db v =
    elim (Bool-cases (is_executing db.row)) [
      | inr settled ↦ rw (settled, After) v
      | inl runs ↦ elim (Bool-cases (db.row.lease_owner == some owner)) [
        | inr lost ↦ rw (runs, lost, After) tt
        | inl held ↦ elim (Bool-cases (is_open execution.status)) [
          | inr closed ↦ rw (runs, held, closed, After) v
          | inl still_open ↦
              rw (runs, held, still_open, After)
                (complete_open-IsSafe env now outcome retryable execution
                  (get_entry db.row.action_id) db (is_executing-eq db.row runs) v)
        ]
      ]
    ]

pub complete_execution-IsSafe :
    (env : Environment) (owner : String) (execution_id : ℕ) (outcome : Outcome) (retryable : Bool)
    (now : ℕ) (db : Db)
    → IsSafe db
    → After IsSafe (complete_execution env owner execution_id outcome retryable now db)
unfolding complete_execution
complete_execution-IsSafe env owner execution_id outcome retryable now db v =
    complete_found-IsSafe env owner outcome retryable now
      (find_execution execution_id db.executions) db v

pub record_baseline-IsSafe :
    (owner : String) (now : ℕ) (values : Baseline) (evidence_ids : List ℕ) (db : Db)
    → IsSafe db
    → After IsSafe (record_baseline owner now values evidence_ids db)
unfolding record_baseline
record_baseline-IsSafe owner now values evidence_ids db v =
    elim (Bool-cases (db.row.lease_owner == some owner)) [
      | inr lost ↦ rw (lost, After) tt
      | inl held ↦ elim (Bool-cases (is_executing db.row)) [
        | inr settled ↦ rw (held, settled, After) tt
        | inl runs ↦ elim (Bool-cases (is_some db.baseline)) [
          | inl captured ↦ rw (held, runs, captured, After) v
          | inr absent ↦ rw (held, runs, absent, After) (ground arith)
        ]
      ]
    ]
