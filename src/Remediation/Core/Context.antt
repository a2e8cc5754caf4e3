-- ===== src/Remediation/Core/Context.antt =====
-- packages/incident/remediations.py: what `propose` reads of the database, and `_context`, which makes
-- of it the facts that policy may use. The incident's remediations and investigations are listed
-- with the newest first, and the ids of all investigations in any order.
use incident_triage.Base.{
  ℕ, ◌+◌, ◌*◌, String, Bool, true, false, not, ◌&&◌, Option, none, some, List, [], ◌∷◌, ◌==◌,
  nat_eq, string_eq, option_eq, length, filter, find, leb, contains, is_some,
}
use incident_triage.Incident.Row.{IncidentRow}
use incident_triage.Investigation.Rows.{
  InvestigationStatus, created, investigating, completed, failed, escalated as ended_escalated,
}
use incident_triage.Remediation.Status.{is_attempted}
use incident_triage.Remediation.Proposal.{
  RemediationProposal, PolicyEvaluationContext, target_service,
}
use incident_triage.Remediation.Rows.{RemediationRow, Scope}
use incident_triage.Remediation.Core.Execution.{is_engaged}

pub record ServiceTopology : Type 0 where
  pub services : List String
  pub neighborhood : String → List String

-- The hypothesis that a report names.
pub record RootCause : Type 0 where
  pub cause_category : Option String
  pub component : Option String

pub record RcaInvestigation : Type 0 where
  pub id : ℕ
  pub status : InvestigationStatus
  pub report : Option RootCause

-- An execution of any remediation, by its target.
pub record TargetExecution : Type 0 where
  pub target_service : String
  pub started_at : ℕ

-- What a proposal for the incident reads.
pub record World : Type 0 where
  pub incident : Option IncidentRow
  pub remediations : List RemediationRow
  pub investigations : List RcaInvestigation
  pub investigation_ids : List ℕ
  pub executions : List TargetExecution
  pub engaged_scopes : List Scope
  pub next_id : ℕ

abbrev pub status_value : InvestigationStatus → String
status_value created = "CREATED"
status_value investigating = "INVESTIGATING"
status_value completed = "COMPLETED"
status_value failed = "FAILED"
status_value ended_escalated = "ESCALATED"

abbrev pub is_completed : InvestigationStatus → Bool
is_completed completed = true
is_completed _ = false

-- `_rca_investigation`
abbrev pub rca_investigation : Option ℕ → List RcaInvestigation → Option RcaInvestigation
rca_investigation none [] = none
rca_investigation none (i ∷ rest) = some i
rca_investigation (some id) investigations = find (λ i. i.id == id) investigations

abbrev pub report_of : Option RcaInvestigation → Option RootCause
report_of none = none
report_of (some i) = i.report

abbrev pub investigation_status_of : Option RcaInvestigation → Option String
investigation_status_of none = none
investigation_status_of (some i) = some (status_value i.status)

abbrev pub is_available : Option RcaInvestigation → Bool
is_available none = false
is_available (some i) = is_some i.report && is_completed i.status

abbrev pub category_of : Option RootCause → Option String
category_of none = none
category_of (some root) = root.cause_category

abbrev pub component_of : Option RootCause → Option String
component_of none = none
component_of (some root) = root.component

-- `bool(target) and ...`
abbrev pub for_target : (String → Bool) → Option String → Bool
for_target test none = false
for_target test (some target) = not (target == "") && test target

-- `target or ""`
abbrev pub text_or_empty : Option String → String
text_or_empty none = ""
text_or_empty (some s) = s

abbrev pub hour : ℕ
hour = 3600 * 1000000

unfoldable pub context_of :
    ServiceTopology
    → (now : ℕ) → IncidentRow
    → RemediationProposal
    → Option ℕ
    → World
    → PolicyEvaluationContext
context_of topology now incident proposal tier world =
    let investigation = rca_investigation proposal.investigation_id world.investigations in
    let root = report_of investigation in
    let target = target_service proposal in
    record {
      context_id = world.next_id + 2;
      captured_at = now;
      incident_id = incident.id;
      incident_environment = incident.environment;
      incident_severity = incident.severity;
      incident_service = incident.service;
      incident_status = incident.status;
      investigation_status = investigation_status_of investigation;
      rca_available = is_available investigation;
      rca_cause_category = category_of root;
      rca_component = component_of root;
      target_service = target;
      target_known = for_target (contains topology.services) target;
      target_in_incident_scope =
          for_target (contains (topology.neighborhood incident.service)) target;
      action_blast_radius_tier = tier;
      attempted_remediations_this_incident =
          length (filter (λ r. is_attempted r.status) world.remediations);
      remediation_executions_last_hour_for_target = length (
          filter (λ e. (e.target_service == text_or_empty target) && leb now (e.started_at + hour))
            world.executions);
      global_kill_switch_engaged = is_engaged Scope.global world.engaged_scopes;
      service_kill_switch_engaged =
          for_target (λ t. is_engaged (Scope.service t) world.engaged_scopes) target;
      proposal_source = proposal.source;
    }
