-- ===== src/Remediation/Core/Approval.antt =====
-- packages/incident/remediations.py: `decide_approval`, `expire_approvals` (of one remediation)
-- and `cancel`.
use incident_triage.Base.{
  ℕ, ◌+◌, String, Bool, true, false, not, ◌&&◌, ◌||◌, Option, none, some, List, [], ◌∷◌,
  if◌then◌else◌, ◌==◌, nat_eq, string_eq, option_eq, contains, filter, is_empty, ltb,
}
use incident_triage.Errors.{
  remediation_state, approval_mismatch, approver_not_authorized, unexpected, Result, ok, err, ◌>>=◌,
  ◌>>◌, raise_if,
}
use incident_triage.Incident.Status.{IncidentStatus, rca_ready, remediation_in_progress, escalated}
use incident_triage.Remediation.Status.{RemediationStatus, remediation_status_eq}
use incident_triage.Remediation.Proposal.{Source}
use incident_triage.Remediation.Rows.{
  ApprovalDecision, ApprovalStatus, Code, TimelineEvent, remediation_approved, remediation_rejected,
  remediation_cancelled, RemediationRow, DecisionRow, ApprovalRow, Db,
}
use incident_triage.Remediation.Core.{emit, transition, move_incident, finish_cancelled}

-- What the human submits.
pub record Decision : Type 0 where
  pub approver : String
  pub approver_roles : List String
  pub approve : Bool
  pub proposal_hash : String
  pub policy_decision_id : ℕ

abbrev pub wanted : Bool → ApprovalDecision
wanted true = ApprovalDecision.approved
wanted false = ApprovalDecision.rejected

abbrev pub same_decision : ApprovalDecision → ApprovalDecision → Bool
same_decision ApprovalDecision.approved ApprovalDecision.approved = true
same_decision ApprovalDecision.rejected ApprovalDecision.rejected = true
same_decision ApprovalDecision.timed_out ApprovalDecision.timed_out = true
same_decision _ _ = false

abbrev pub is_operator : Source → Bool
is_operator Source.operator = true
is_operator _ = false

abbrev first_role : List String → Option String
first_role [] = none
first_role (r ∷ rs) = some r

-- `[r for r in approver_roles if r in decision_row.required_approver_roles]`
abbrev pub eligible_roles : Decision → DecisionRow → List String
eligible_roles d decision = filter (contains decision.required_approver_roles) d.approver_roles

abbrev pub set_approval : ApprovalStatus → Db → Db
set_approval s db = record db { row = record (db.row) { approval_status = some s } }

abbrev pub add_approval : ApprovalRow → Db → Db
add_approval a db = record db { approval = some a }

-- The row that a decision adds.
abbrev pub new_approval : ℕ → Decision → DecisionRow → RemediationRow → ApprovalRow
new_approval now d decision row = record {
  policy_decision_id = some decision.id;
  proposal_hash = row.proposal_hash;
  decision = wanted d.approve;
  approver = d.approver;
  approver_role = first_role (eligible_roles d decision);
  decided_at = now;
}

-- What follows the checks of `decide_approval`.
unfoldable pub settle_approval : ℕ → Decision → DecisionRow → Db → Result Db
settle_approval now d decision db =
    let added = add_approval (new_approval now d decision db.row) db in
    if d.approve
    then (transition now RemediationStatus.approved TimelineEvent.approved
          (set_approval ApprovalStatus.approved added)
        >>= λ approved.
            move_incident now (IncidentStatus.awaiting_approval ∷ []) remediation_in_progress
              (emit remediation_approved approved))
    else finish_cancelled now TimelineEvent.rejected Code.approval_rejected escalated
        remediation_rejected (set_approval ApprovalStatus.rejected added)

abbrev pub is_awaiting : RemediationRow → Bool
is_awaiting row = row.status == RemediationStatus.awaiting_approval

-- The decision is about another proposal, or about another policy decision.
abbrev pub is_mismatched : Decision → RemediationRow → Bool
is_mismatched d row =
    not (d.proposal_hash == row.proposal_hash)
    || not (some d.policy_decision_id == row.policy_decision_id)

abbrev pub lacks_role : Decision → DecisionRow → Bool
lacks_role d decision = d.approve && is_empty (eligible_roles d decision)

abbrev pub approves_own : Decision → RemediationRow → Bool
approves_own d row = d.approve && is_operator row.source && row.proposed_by == d.approver

-- The checks that need the policy decision.
unfoldable pub decide_with : ℕ → Decision → Option DecisionRow → Db → Result Db
decide_with now d none db = err unexpected
decide_with now d (some decision) db = do
  raise_if (lacks_role d decision) approver_not_authorized
  raise_if (approves_own d db.row) approver_not_authorized
  settle_approval now d decision db

-- The checks on a remediation that has no decision yet.
unfoldable pub decide_first : ℕ → Decision → Db → Result Db
decide_first now d db = do
  raise_if (not (is_awaiting db.row)) remediation_state
  raise_if (is_mismatched d db.row) approval_mismatch
  decide_with now d db.decision db

-- A duplicate delivery of the decision that stands.
abbrev pub is_repeat : Decision → ApprovalRow → Bool
is_repeat d existing =
    existing.approver == d.approver
    && same_decision existing.decision (wanted d.approve)
    && existing.proposal_hash == d.proposal_hash

unfoldable pub decide_approval_with : ℕ → Decision → Option ApprovalRow → Db → Result Db
decide_approval_with now d (some existing) db =
    if is_repeat d existing then ok db else err remediation_state
decide_approval_with now d none db = decide_first now d db

unfoldable pub decide_approval : ℕ → Decision → Db → Result Db
decide_approval now d db = decide_approval_with now d db.approval db

-- The body of the loop of `expire_approvals`, and the test of its query.
abbrev pub is_overdue : ℕ → ℕ → Db → Bool
is_overdue now approval_timeout db =
    is_awaiting db.row && ltb (db.row.updated_at + approval_timeout) now

unfoldable pub expire_approval : ℕ → ℕ → Db → Result Db
expire_approval now approval_timeout db =
    if is_overdue now approval_timeout db
    then finish_cancelled now TimelineEvent.approval_timed_out Code.approval_timed_out escalated
        remediation_cancelled
        (set_approval ApprovalStatus.timed_out (
          add_approval
            (record {
              policy_decision_id = db.row.policy_decision_id;
              proposal_hash = db.row.proposal_hash;
              decision = ApprovalDecision.timed_out;
              approver = "system:approval-timeout";
              approver_role = none;
              decided_at = now;
            })
            db))
    else ok db

abbrev pub is_withdrawable : RemediationStatus → Bool
is_withdrawable RemediationStatus.awaiting_approval = true
is_withdrawable RemediationStatus.approved = true
is_withdrawable _ = false

unfoldable pub cancel : ℕ → Db → Result Db
cancel now db = do
  raise_if (not (is_withdrawable db.row.status)) remediation_state
  finish_cancelled now TimelineEvent.cancelled Code.withdrawn rca_ready remediation_cancelled db
