-- ===== src/Remediation/Core/Lifecycle.antt =====
-- packages/incident/remediations.py: a remediation over any sequence of commands by approvers,
-- operators and workers, with the incident and the kill switches changed by others in between.
use incident_triage.Base.{
  ℕ, ◌≤◌, ◌<◌, ◌≡◌, Bool, true, false, Option, none, some, List, [], arith, String, subst, ap,
  length, string_eq, option_eq, nat_eq,
}
use incident_triage.Errors.{ok, After}
use incident_triage.Incident.Row.{IncidentRow}
use incident_triage.Remediation.Status.{RemediationStatus}
use incident_triage.Remediation.Catalog.{ActionCatalogEntry, get_entry}
use incident_triage.Remediation.Rows.{Scope, Db}
use incident_triage.Remediation.Core.Approval.{Decision, decide_approval, expire_approval, cancel}
use incident_triage.Remediation.Core.Execution.{
  Environment, ExecutionTicket, claim_execution, approval_binds,
}
use incident_triage.Remediation.Core.Report.{Outcome, complete_execution, record_baseline}
use incident_triage.Remediation.Core.Safety.{IsSafe, Within, HasOneVerification, is_executed}
use incident_triage.Remediation.Core.Commands.{
  decide_approval-IsSafe, expire_approval-IsSafe, cancel-IsSafe,
}
use incident_triage.Remediation.Core.Attempts.{IsSafeClaim, claim_execution-IsSafe}
use incident_triage.Remediation.Core.Completion.{complete_execution-IsSafe, record_baseline-IsSafe}
use incident_triage.Verification.Spec.{Baseline}

module _ (env : Environment) where
  pub data Step (db : Db) : Db → Type 0 where
    decided : {db' : Db} (now : ℕ) (d : Decision) → decide_approval now d db ≡ ok db' → Step db db'
    expired :
        {db' : Db} (now approval_timeout : ℕ)
        → expire_approval now approval_timeout db ≡ ok db'
        → Step db db'
    withdrawn : {db' : Db} (now : ℕ) → cancel now db ≡ ok db' → Step db db'
    claimed :
        {db' : Db} (owner : String) (lease now : ℕ) (ticket : Option ExecutionTicket)
        → claim_execution env owner lease now db ≡ ok (db', ticket)
        → Step db db'
    completed :
        {db' : Db} (owner : String) (execution_id : ℕ) (outcome : Outcome) (retryable : Bool)
        (now : ℕ)
        → complete_execution env owner execution_id outcome retryable now db ≡ ok db'
        → Step db db'
    captured :
        {db' : Db} (owner : String) (now : ℕ) (values : Baseline) (evidence_ids : List ℕ)
        → record_baseline owner now values evidence_ids db ≡ ok db'
        → Step db db'
    others_changed :
        {db' : Db} (incident : IncidentRow) (engaged_scopes : List Scope)
        → db' ≡ record db { incident = incident; engaged_scopes = engaged_scopes }
        → Step db db'

  pub data Reach (db : Db) : Db → Type 0 where
    here : Reach db db
    next : {db' db'' : Db} → Reach db db' → Step db' db'' → Reach db db''

  Step-IsSafe : {db db' : Db} → Step db db' → IsSafe db → IsSafe db'
  Step-IsSafe {db} (decided now d e) v = subst (After IsSafe) e (decide_approval-IsSafe now d db v)
  Step-IsSafe {db} (expired now approval_timeout e) v =
      subst (After IsSafe) e (expire_approval-IsSafe now approval_timeout db v)
  Step-IsSafe {db} (withdrawn now e) v = subst (After IsSafe) e (cancel-IsSafe now db v)
  Step-IsSafe {db} (claimed owner lease now ticket e) v =
      subst (After IsSafeClaim) e (claim_execution-IsSafe env owner lease now db v)
  Step-IsSafe {db} (completed owner execution_id outcome retryable now e) v =
      subst (After IsSafe) e
        (complete_execution-IsSafe env owner execution_id outcome retryable now db v)
  Step-IsSafe {db} (captured owner now values evidence_ids e) v =
      subst (After IsSafe) e (record_baseline-IsSafe owner now values evidence_ids db v)
  Step-IsSafe {db} (others_changed incident engaged_scopes e) v = rw e v

  -- A remediation that awaits its approval, as `propose` leaves it.
  pub record IsNew (db : Db) : Type 0 where
    pub awaits : db.row.status ≡ RemediationStatus.awaiting_approval
    pub none_counted : db.row.execution_attempts ≡ 0
    pub no_executions : db.executions ≡ []
    pub no_verifications : db.verifications ≡ []

  IsNew-Within : (entry : Option ActionCatalogEntry) → Within entry 0
  IsNew-Within none = tt
  IsNew-Within (some e) = omega arith

  IsNew-IsSafe : (db : Db) → IsNew db → IsSafe db
  IsNew-IsSafe db n =
      ground (arith, IsNew-Within (get_entry db.row.action_id), ap length n.no_executions)

  Reach-IsSafe : {db db' : Db} → IsNew db → Reach db db' → IsSafe db'
  Reach-IsSafe {db} n here = IsNew-IsSafe db n
  Reach-IsSafe n (next r s) = Step-IsSafe s (Reach-IsSafe n r)

  -- From a remediation that awaits its approval, however the commands follow one another: no
  -- attempt is made without a human's approval of the exact proposal and policy decision, the
  -- attempts stay within the action's limit, each is recorded, and a remediation is executed
  -- exactly when it has its one verification.
  pub lifecycle_safe :
      {db db' : Db}
      → IsNew db
      → Reach db db'
      → (0 < db'.row.execution_attempts → approval_binds db'.approval db'.row ≡ true)
        × ((e : ActionCatalogEntry)
            → get_entry db'.row.action_id ≡ some e
            → db'.row.execution_attempts ≤ e.max_attempts)
        × (db'.row.execution_attempts ≡ length db'.executions)
        × (is_executed db'.row.status ≡ true → HasOneVerification db'.row db'.verifications)
        × (is_executed db'.row.status ≡ false → db'.verifications ≡ [])
  lifecycle_safe {db} {db'} n r =
      let v = Reach-IsSafe n r in
      (
        v.approved_first,
        λ e known. subst (λ entry. Within entry db'.row.execution_attempts) known v.bounded,
        v.counted,
        v.verified,
        v.unverified,
      )
