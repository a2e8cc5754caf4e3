-- ===== src/Remediation/Core/Revising.antt =====
-- packages/incident/remediations.py: `revise`, two transactions, of which the second finds the
-- database as others may have changed it. The texts of the old row, which it has no column for
-- here, are arguments.
use incident_triage.Base.{ℕ, String, Document, Option, none, some, ◌==◌, string_eq, if◌then◌else◌}
use incident_triage.Errors.{Result, ok, ◌>>=◌}
use incident_triage.Remediation.Catalog.{Validator}
use incident_triage.Remediation.Proposal.{RemediationProposal, Source}
use incident_triage.Remediation.Rows.{RemediationRow, Db}
use incident_triage.Remediation.Core.Approval.{cancel}
use incident_triage.Remediation.Core.Context.{ServiceTopology, World}
use incident_triage.Remediation.Core.Proposing.{Proposed, propose}
use incident_triage.Policy.{Policy}

-- `reason or old.reason`
abbrev pub reason_or : Option String → String → String
reason_or none old = old
reason_or (some reason) old = if reason == "" then old else reason

abbrev pub revised :
    RemediationRow
    → Document
    → (proposed_by : String) → Option String
    → (old_reason old_effect : String) → RemediationProposal
revised old parameters proposed_by reason old_reason old_effect = record {
  incident_id = old.incident_id;
  investigation_id = old.investigation_id;
  action_id = old.action_id;
  parameters = parameters;
  reason = reason_or reason old_reason;
  expected_effect = old_effect;
  source = Source.operator;
  proposed_by = proposed_by;
}

-- The cancelled remediation, and what came of the new proposal.
unfoldable pub revise :
    Validator
    → ServiceTopology
    → Policy
    → (ℕ → Option ℕ → String → String → Document → String → String)
    → Document
    → (proposed_by : String) → Option String
    → (old_reason old_effect : String) → (idempotency_key : String) → (now later : ℕ) → Db
    → (Db → World)
    → Result (Db × Result Proposed)
revise v topology policy hash parameters proposed_by reason old_reason old_effect idempotency_key
      now later old found =
    do
      cancelled ← cancel now old
      ok (
        cancelled,
        propose v topology policy hash idempotency_key later
            (revised old.row parameters proposed_by reason old_reason old_effect) (found cancelled),
      )
