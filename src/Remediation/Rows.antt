-- ===== src/Remediation/Rows.antt =====
-- packages/incident/db/models.py: the rows that the remediation commands read and write, for one
-- remediation: its row, its policy decision, approval, executions, baseline, verification and
-- timeline, its incident, and the engaged kill switches. Columns that no command reads back are
-- left out, and so are free texts. The newest execution, timeline entry and event stand first.
-- A new identifier is the counter `next_id`.
use incident_triage.Base.{ℕ, String, Option, List, Document}
use incident_triage.Incident.Status.{IncidentStatus}
use incident_triage.Incident.Row.{IncidentRow}
use incident_triage.Remediation.Status.{RemediationStatus}
use incident_triage.Remediation.Proposal.{Source, Verdict}
use incident_triage.Verification.Spec.{Baseline, VerificationSpec}

pub data ExecutionStatus : Type 0 where
  running succeeded failed timed_out unknown : ExecutionStatus

pub data ApprovalDecision : Type 0 where
  approved rejected timed_out : ApprovalDecision

pub data ApprovalStatus : Type 0 where
  pending approved rejected timed_out : ApprovalStatus

-- `"global"` and `service_scope(service)`
pub data Scope : Type 0 where
  global : Scope
  service : String → Scope

-- The code of a failure or cancellation.
pub data Code : Type 0 where
  policy_rejected kill_switch approval_invalid catalog_changed invalid_parameters : Code
  target_invalid attempts_exhausted failed timed_out : Code
  approval_rejected approval_timed_out withdrawn : Code

pub record RemediationRow : Type 0 where
  pub id : ℕ
  pub incident_id : ℕ
  pub investigation_id : Option ℕ
  pub idempotency_key : String
  pub action_id : String
  pub catalog_version : String
  pub parameters : Document
  pub target_service : String
  pub environment : String
  pub blast_radius_tier : Option ℕ
  pub proposal_hash : String
  pub source : Source
  pub proposed_by : String
  pub status : RemediationStatus
  pub policy_decision_id : Option ℕ
  pub approval_status : Option ApprovalStatus
  pub execution_status : Option ExecutionStatus
  pub execution_attempts : ℕ
  pub lease_owner : Option String
  pub lease_expires_at : Option ℕ
  pub verification_ref : Option ℕ
  pub failure_reason : Option Code
  pub version : ℕ
  pub created_at : ℕ
  pub updated_at : ℕ
  pub completed_at : Option ℕ

pub record DecisionRow : Type 0 where
  pub id : ℕ
  pub proposal_hash : String
  pub decision : Verdict
  pub required_approver_roles : List String

pub record ApprovalRow : Type 0 where
  pub policy_decision_id : Option ℕ
  pub proposal_hash : String
  pub decision : ApprovalDecision
  pub approver : String
  pub approver_role : Option String
  pub decided_at : ℕ

pub record ExecutionRow : Type 0 where
  pub id : ℕ
  pub attempt_number : ℕ
  pub status : ExecutionStatus
  pub owner : String
  pub started_at : ℕ
  pub deadline_at : ℕ
  pub completed_at : Option ℕ

pub data TimelineEvent : Type 0 where
  proposed policy_evaluated policy_rejected approval_requested approved rejected : TimelineEvent
  approval_timed_out cancelled execution_interrupted execution_started : TimelineEvent
  executed execution_attempt_failed baseline_captured verification_requested : TimelineEvent
  failed : TimelineEvent

pub record TimelineRow : Type 0 where
  pub event : TimelineEvent
  pub from_status : Option RemediationStatus
  pub to_status : RemediationStatus

pub data Event : Type 0 where
  remediation_proposed remediation_policy_evaluated remediation_approval_requested : Event
  remediation_approved remediation_rejected remediation_cancelled remediation_started : Event
  remediation_executed remediation_failed : Event
  verification_requested : ℕ → Event
  incident_status_changed : (from_status to_status : IncidentStatus) → ℕ → Event

-- The baseline's values, of which `build_spec` reads some.
pub record BaselineRow : Type 0 where
  pub values : Baseline
  pub evidence_ids : List ℕ
  pub captured_at : ℕ

pub record RequestedVerification : Type 0 where
  pub id : ℕ
  pub spec : VerificationSpec

pub record Db : Type 0 where
  pub row : RemediationRow
  pub decision : Option DecisionRow
  pub approval : Option ApprovalRow
  pub executions : List ExecutionRow
  pub baseline : Option BaselineRow
  pub verifications : List RequestedVerification
  pub incident : IncidentRow
  pub engaged_scopes : List Scope
  pub timeline : List TimelineRow
  pub outbox : List Event
  pub next_id : ℕ
