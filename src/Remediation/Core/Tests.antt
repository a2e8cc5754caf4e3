-- ===== src/Remediation/Core/Tests.antt =====
-- packages/incident/remediations.py: a restart that is approved, claimed and executed.
use incident_triage.Base.{
  ◌≡◌, ◌≢◌, refl, true, false, Option, none, some, [], ◌∷◌, string_eq, inr, suc, ap, sym,
  true-false-apart, ◌==◌, option_eq,
}
use incident_triage.Errors.{ok, After}
use incident_triage.Incident.Row.{transition_incident_status}
use incident_triage.Remediation.Status.{RemediationStatus}
use incident_triage.Remediation.Catalog.{ActionCatalogEntry, get_entry, catalog, validate}
use incident_triage.Remediation.Rows.{Scope, Code, DecisionRow, Db}
use incident_triage.Remediation.Core.{transition, move_incident, finish_cancelled}
use incident_triage.Remediation.Core.Approval.{
  decide_approval, decide_approval_with, decide_first, decide_with, settle_approval, lacks_role,
  approves_own,
}
use incident_triage.Remediation.Core.Execution.{
  ExecutionTicket, execute, claim_execution, claim_with, attempt_execution, execution_blocker,
  begin_attempt, refuse_attempt,
}
use incident_triage.Remediation.Core.Report.{
  succeeded, complete_execution, complete_found, complete_open, complete_success,
  request_verification,
}
use incident_triage.Remediation.Core.Safety.{HasOneVerification, is_executed}
use incident_triage.Remediation.Core.Lifecycle.{
  decided, claimed, completed, Reach, here, next, IsNew, lifecycle_safe,
}
use incident_triage.Remediation.Core.Attempts.{IsCleared}
use incident_triage.Remediation.Core.Guards.{claim_execution-IsAuthorised}
use incident_triage.Remediation.Core.Deciding.{decide_approval-checks, decide_approval-repeat}
use incident_triage.Remediation.Core.Fencing.{complete_execution-fenced, claim_execution-IsStopped}
use incident_triage.Remediation.Samples.{
  environment, awaiting, approval_decision, committed, claimed_in,
}
use incident_triage.Verification.Spec.{build_spec, build_checks, build_check}

abbrev approved : Db
approved = committed awaiting (decide_approval 300 approval_decision awaiting)

approves : decide_approval 300 approval_decision awaiting ≡ ok approved
unfolding decide_approval decide_approval_with decide_first decide_with settle_approval transition
    move_incident transition_incident_status
approves = refl

abbrev executing : Db
executing = claimed_in approved (claim_execution environment "worker" 60 400 approved)

abbrev ticket : ExecutionTicket
ticket = record { mode = execute; execution_id = 10; attempt = 1; deadline = 120000400 }

claims : claim_execution environment "worker" 60 400 approved ≡ ok (executing, some ticket)
unfolding decide_approval decide_approval_with decide_first decide_with settle_approval transition
    move_incident transition_incident_status claim_execution claim_with attempt_execution
    execution_blocker begin_attempt validate get_entry catalog
claims = refl

abbrev executed : Db
executed =
    committed executing (complete_execution environment "worker" 10 succeeded true 500 executing)

completes : complete_execution environment "worker" 10 succeeded true 500 executing ≡ ok executed
unfolding decide_approval decide_approval_with decide_first decide_with settle_approval transition
    move_incident transition_incident_status claim_execution claim_with attempt_execution
    execution_blocker begin_attempt validate get_entry catalog complete_execution complete_found
    complete_open complete_success request_verification build_spec build_checks build_check
completes = refl

decide_approval-checks_example :
    (awaiting.row.status ≡ RemediationStatus.awaiting_approval)
    × (approval_decision.proposal_hash ≡ awaiting.row.proposal_hash)
    × (some approval_decision.policy_decision_id ≡ awaiting.row.policy_decision_id)
    × ((decision : DecisionRow) × (awaiting.decision ≡ some decision)
        × (lacks_role approval_decision decision ≡ false))
    × (approves_own approval_decision awaiting.row ≡ false)
    × (approved.row.status ≡ RemediationStatus.approved)
decide_approval-checks_example =
    decide_approval-checks 300 approval_decision awaiting approved refl approves

decide_approval-repeat_example : decide_approval 310 approval_decision approved ≡ ok approved
decide_approval-repeat_example =
    decide_approval-repeat 300 310 approval_decision awaiting approved approves

claim_execution-IsAuthorised_example :
    (e : ActionCatalogEntry) × (get_entry "restart_service" ≡ some e)
    × IsCleared environment approved e
    × (executing.row.execution_attempts ≡ suc approved.row.execution_attempts)
    × (executing.row.status ≡ RemediationStatus.executing)
unfolding decide_approval decide_approval_with decide_first decide_with settle_approval transition
    move_incident transition_incident_status
claim_execution-IsAuthorised_example =
    claim_execution-IsAuthorised environment "worker" 60 400 approved executing ticket claims refl

abbrev stopped : Db
stopped = record approved { engaged_scopes = Scope.service "checkout" ∷ [] }

abbrev halted : Db
halted = claimed_in stopped (claim_execution environment "worker" 60 400 stopped)

halts : claim_execution environment "worker" 60 400 stopped ≡ ok (halted, none)
unfolding decide_approval decide_approval_with decide_first decide_with settle_approval transition
    move_incident transition_incident_status claim_execution claim_with attempt_execution
    execution_blocker refuse_attempt finish_cancelled
halts = refl

claim_execution-IsStopped_example :
    (◌≡◌ {A = Option ExecutionTicket} none none)
    × (halted.row.status ≡ RemediationStatus.cancelled)
    × (halted.row.failure_reason ≡ some Code.kill_switch)
    × (halted.executions ≡ stopped.executions)
unfolding decide_approval decide_approval_with decide_first decide_with settle_approval transition
    move_incident transition_incident_status
claim_execution-IsStopped_example =
    claim_execution-IsStopped environment "worker" 60 400 stopped halted none refl refl refl halts

other_worker : executing.row.lease_owner ≢ some "other"
unfolding decide_approval decide_approval_with decide_first decide_with settle_approval transition
    move_incident transition_incident_status claim_execution claim_with attempt_execution
    execution_blocker begin_attempt validate get_entry catalog
other_worker h = true-false-apart true refl (sym (ap (λ o. o == some "other") h))

complete_execution-fenced_example :
    After
      (λ db'. db' ≡ executing)
      (complete_execution environment "other" 10 succeeded true 500 executing)
complete_execution-fenced_example =
    complete_execution-fenced environment "other" 10 succeeded true 500 executing (inr other_worker)

awaiting-IsNew : IsNew environment awaiting
awaiting-IsNew = record {
  awaits = refl;
  none_counted = refl;
  no_executions = refl;
  no_verifications = refl;
}

to_executed : Reach environment awaiting executed
to_executed =
    next
      (next (next here (decided 300 approval_decision approves))
        (claimed "worker" 60 400 (some ticket) claims))
      (completed "worker" 10 succeeded true 500 completes)

executed-status : executed.row.status ≡ RemediationStatus.executed
unfolding decide_approval decide_approval_with decide_first decide_with settle_approval transition
    move_incident transition_incident_status claim_execution claim_with attempt_execution
    execution_blocker begin_attempt validate get_entry catalog complete_execution complete_found
    complete_open complete_success request_verification build_spec build_checks build_check
executed-status = refl

lifecycle_safe_example : HasOneVerification executed.row executed.verifications
lifecycle_safe_example =
    (lifecycle_safe environment awaiting-IsNew to_executed).3 (ap is_executed executed-status)
