-- ===== src/Verification/Rows.antt =====
-- packages/incident/db/models.py: the rows that the verification commands read and write, for one
-- verification: its row, its observations and evidence links, its incident with the alerts
-- linked to it, and its remediation.
use incident_triage.Base.{ℕ, String, Bool, Option, List}
use incident_triage.Incident.Status.{IncidentStatus}
use incident_triage.Incident.Row.{IncidentRow, AlertRow}
use incident_triage.Remediation.Status.{RemediationStatus}
use incident_triage.Verification.Policy.{VerificationStatus}
use incident_triage.Verification.Spec.{VerificationSpec}
use incident_triage.Verification.Sample.{CheckResult}
use incident_triage.Verification.Decision.{Reason}

pub data NextAction : Type 0 where
  no_action resolve escalate reinvestigate : NextAction

-- Why a verdict is not applied to the incident.
pub data Staleness : Type 0 where
  incident_moved : IncidentStatus → Staleness
  remediation_moved : RemediationStatus → Staleness
  newer_verification newer_remediation : Staleness

pub record VerificationRow : Type 0 where
  pub id : ℕ
  pub incident_id : ℕ
  pub remediation_id : ℕ
  pub spec : VerificationSpec
  pub status : VerificationStatus
  pub consecutive_successes : ℕ
  pub observation_count : ℕ
  pub conclusive_count : ℕ
  pub result : Option VerificationStatus
  pub failure_reason : Option Reason
  pub not_applied : Option Staleness
  pub next_action : Option NextAction
  pub known_alert_ids : List ℕ
  pub claim_attempt : ℕ
  pub lease_owner : Option String
  pub lease_expires_at : Option ℕ
  pub grace_until : Option ℕ
  pub deadline_at : Option ℕ
  pub next_poll_at : Option ℕ
  pub started_at : Option ℕ
  pub completed_at : Option ℕ
  pub updated_at : ℕ

pub record ObservationRow : Type 0 where
  pub sequence : ℕ
  pub claim_attempt : ℕ
  pub observed_at : ℕ
  pub passed : Bool
  pub conclusive : Bool
  pub checks : List CheckResult
  pub errors : List String
  pub evidence_ids : List ℕ

pub record EvidenceLink : Type 0 where
  pub evidence_id : ℕ
  pub poll_sequence : ℕ
  pub collected_at : ℕ

-- The remediation's own row, as far as a verdict reads it.
pub record VerifiedRemediation : Type 0 where
  pub id : ℕ
  pub status : RemediationStatus
  pub verification_ref : Option ℕ
  pub created_at : ℕ

pub data Change : Type 0 where
  verification_passed verification_failed verification_timed_out : Change

pub data Event : Type 0 where
  verification_started : Event
  verification_completed : (result : Option VerificationStatus) → Option NextAction → Event
  incident_status_changed : (from_status to_status : IncidentStatus) → Change → ℕ → Event
  incident_resolved incident_escalated : IncidentStatus → Event

-- The newest observation and the newest event stand first. `remediations` holds the creation
-- times of all remediations of the incident, `evidence_refs` the ids of all registered evidence.
pub record Db : Type 0 where
  pub row : VerificationRow
  pub observations : List ObservationRow
  pub evidence_links : List EvidenceLink
  pub evidence_refs : List ℕ
  pub incident : IncidentRow
  pub alerts : List AlertRow
  pub remediation : VerifiedRemediation
  pub remediations : List ℕ
  pub outbox : List Event
