-- ===== src/Remediation/Core/Proposing.antt =====
-- packages/incident/remediations.py: `propose`. The hash of a proposal is a parameter.
pub mod Routing
pub mod Tests
use incident_triage.Base.{
  ℕ, ◌+◌, ◌*◌, String, Bool, true, false, not, ◌&&◌, Option, none, some, List, [], ◌∷◌, ◌==◌,
  nat_eq, string_eq, option_eq, length, filter, find, leb, contains, is_some, if◌then◌else◌,
  Document,
}
use incident_triage.Errors.{Result, ok, err, ◌>>=◌, ◌>>◌, raise_if, incident_not_found, unexpected}
use incident_triage.Incident.Status.{IncidentStatus, rca_ready, awaiting_approval, escalated}
use incident_triage.Incident.Row.{IncidentRow}
use incident_triage.Investigation.Rows.{
  InvestigationStatus, created, investigating, completed, failed, escalated as ended_escalated,
}
use incident_triage.Remediation.Status.{RemediationStatus, is_attempted}
use incident_triage.Remediation.Catalog.{
  Validator, Params, ActionCatalogEntry, validate, blast_radius, get_entry,
}
use incident_triage.Remediation.Proposal.{
  RemediationProposal, PolicyEvaluationContext, PolicyDecision, Verdict, allow, denied,
  needs_approval, target_service,
}
use incident_triage.Remediation.Rows.{
  RemediationRow, DecisionRow, Scope, Code, TimelineEvent, Event, remediation_proposed,
  remediation_policy_evaluated, remediation_approval_requested, remediation_failed, ApprovalStatus,
  Db,
}
use incident_triage.Remediation.Core.{emit, note, transition, move_incident}
use incident_triage.Remediation.Core.Execution.{is_engaged}
use incident_triage.Policy.{Policy, catalog_version, evaluate, tier_of, validated}
use incident_triage.Remediation.Core.Context.{
  ServiceTopology, World, RcaInvestigation, TargetExecution, RootCause, text_or_empty, context_of,
}

abbrev pub tier_for : Validator → RemediationProposal → Option ℕ
tier_for v proposal =
    tier_of (get_entry proposal.action_id) (validated v (get_entry proposal.action_id) proposal)

abbrev pub new_row :
    (hash : String) (idempotency_key : String) (tier : Option ℕ) (now : ℕ)
    → IncidentRow
    → RemediationProposal
    → World
    → RemediationRow
new_row hash idempotency_key tier now incident proposal world = record {
  id = world.next_id;
  incident_id = incident.id;
  investigation_id = proposal.investigation_id;
  idempotency_key = idempotency_key;
  action_id = proposal.action_id;
  catalog_version = catalog_version;
  parameters = proposal.parameters;
  target_service = text_or_empty (target_service proposal);
  environment = incident.environment;
  blast_radius_tier = tier;
  proposal_hash = hash;
  source = proposal.source;
  proposed_by = proposal.proposed_by;
  status = RemediationStatus.proposed;
  policy_decision_id = none;
  approval_status = none;
  execution_status = none;
  execution_attempts = 0;
  lease_owner = none;
  lease_expires_at = none;
  verification_ref = none;
  failure_reason = none;
  version = 1;
  created_at = now;
  updated_at = now;
  completed_at = none;
}

-- The remediation as it is recorded before policy is asked.
abbrev pub recorded : RemediationRow → IncidentRow → World → Db
recorded row incident world = emit remediation_proposed (
    note TimelineEvent.proposed none RemediationStatus.proposed (record {
      row = row;
      decision = none;
      approval = none;
      executions = [];
      baseline = none;
      verifications = [];
      incident = incident;
      engaged_scopes = world.engaged_scopes;
      timeline = [];
      outbox = [];
      next_id = world.next_id + 3;
    }))

-- `_record_decision`
abbrev pub record_decision : (id : ℕ) → PolicyDecision → Db → Db
record_decision id decision db = emit remediation_policy_evaluated (
    note TimelineEvent.policy_evaluated (some RemediationStatus.proposed) RemediationStatus.proposed
      (record db {
        decision = some (record {
          id = id;
          proposal_hash = db.row.proposal_hash;
          decision = decision.decision;
          required_approver_roles = decision.required_approver_roles;
        });
        row = record (db.row) { policy_decision_id = some id };
      }))

abbrev pub reject : ℕ → Db → Result Db
reject now db = do
  rejected ← transition now RemediationStatus.policy_rejected TimelineEvent.policy_rejected db
  move_incident now (rca_ready ∷ []) escalated (
      emit remediation_failed (record rejected {
        row = record (rejected.row) {
          failure_reason = some Code.policy_rejected;
          completed_at = some now;
        };
      }))

abbrev pub request_approval : ℕ → Db → Result Db
request_approval now db = do
  waiting ← transition now RemediationStatus.awaiting_approval TimelineEvent.approval_requested db
  move_incident now (rca_ready ∷ []) awaiting_approval (
      emit remediation_approval_requested (record waiting {
        row = record (waiting.row) { approval_status = some ApprovalStatus.pending };
      }))

-- ALLOW is treated like a decision that needs an approval.
unfoldable pub route : ℕ → Verdict → Db → Result Db
route now denied db = reject now db
route now allow db = request_approval now db
route now needs_approval db = request_approval now db

-- The remediation that was proposed under the key before, or the new one.
pub data Proposed : Type 0 where
  existing : RemediationRow → Proposed
  fresh : Db → Proposed

-- The foreign key `remediations.investigation_id`, which the insertion has to respect.
abbrev pub is_known_investigation : Option ℕ → List ℕ → Bool
is_known_investigation none ids = true
is_known_investigation (some id) ids = contains ids id

module _ (v : Validator) (topology : ServiceTopology) (policy : Policy)
    (proposal_hash : ℕ → Option ℕ → String → String → Document → String → String) where
  abbrev pub decision_on : ℕ → IncidentRow → RemediationProposal → World → PolicyDecision
  decision_on now incident proposal world =
      evaluate v proposal (get_entry proposal.action_id) policy
        (context_of topology now incident proposal (tier_for v proposal) world)

  abbrev pub evaluated : String → ℕ → IncidentRow → RemediationProposal → World → Db
  evaluated idempotency_key now incident proposal world =
      let hash =
        proposal_hash incident.id proposal.investigation_id proposal.action_id catalog_version
          proposal.parameters incident.environment in
      record_decision (world.next_id + 1) (decision_on now incident proposal world) (
        recorded (new_row hash idempotency_key (tier_for v proposal) now incident proposal world)
          incident world)

  unfoldable pub propose_for :
      String
      → ℕ
      → RemediationProposal
      → World
      → Option IncidentRow
      → Option RemediationRow
      → Result Proposed
  propose_for idempotency_key now proposal world none before = err incident_not_found
  propose_for idempotency_key now proposal world (some incident) (some row) = ok (existing row)
  propose_for idempotency_key now proposal world (some incident) none =
      raise_if (not (is_known_investigation proposal.investigation_id world.investigation_ids))
        unexpected
      >> route now (decision_on now incident proposal world).decision
          (evaluated idempotency_key now incident proposal world)
      >>= λ db. ok (fresh db)

  unfoldable pub propose : String → ℕ → RemediationProposal → World → Result Proposed
  propose idempotency_key now proposal world =
      propose_for idempotency_key now proposal world world.incident
        (find (λ r. r.idempotency_key == idempotency_key) world.remediations)
