-- ===== src/Remediation/Proposal.antt =====
-- packages/domain/remediation.py: a proposal, the facts that policy may use, and a policy's
-- decision. The texts that explain a rule's outcome are left out.
use incident_triage.Base.{
  ℕ, String, Bool, Option, none, some, List, Document, Value, text, lookup, string_eq,
}
use incident_triage.Incident.Status.{IncidentStatus}

pub data Source : Type 0 where
  planner operator model : Source

pub record RemediationProposal : Type 0 where
  pub incident_id : ℕ
  pub investigation_id : Option ℕ
  pub action_id : String
  pub parameters : Document
  pub reason : String
  pub expected_effect : String
  pub source : Source
  pub proposed_by : String

abbrev text_value : Option Value → Option String
text_value (some (text s)) = some s
text_value _ = none

abbrev pub target_service : RemediationProposal → Option String
target_service p = text_value (lookup "service" p.parameters)

pub record PolicyEvaluationContext : Type 0 where
  pub context_id : ℕ
  pub captured_at : ℕ
  pub incident_id : ℕ
  pub incident_environment : String
  pub incident_severity : String
  pub incident_service : String
  pub incident_status : IncidentStatus
  pub investigation_status : Option String
  pub rca_available : Bool
  pub rca_cause_category : Option String
  pub rca_component : Option String
  pub target_service : Option String
  pub target_known : Bool
  pub target_in_incident_scope : Bool
  pub action_blast_radius_tier : Option ℕ
  pub attempted_remediations_this_incident : ℕ
  pub remediation_executions_last_hour_for_target : ℕ
  pub global_kill_switch_engaged : Bool
  pub service_kill_switch_engaged : Bool
  pub proposal_source : Source

pub data Outcome : Type 0 where
  pass deny require_approval : Outcome

pub data RuleId : Type 0 where
  kill_switch_global kill_switch_service : RuleId
  action_known action_parameters action_auto_execution_not_requested : RuleId
  target_known target_in_incident_scope : RuleId
  environment_not_prohibited environment_allowed_for_action : RuleId
  blast_radius_action_max blast_radius_environment_max : RuleId
  incident_remediable_status rca_required rca_target_matches_root_cause : RuleId
  attempts_per_incident attempts_per_service_per_hour : RuleId
  approval_required approval_eligible_role_exists : RuleId

pub record RuleResult : Type 0 where
  pub rule_id : RuleId
  pub outcome : Outcome

pub data Verdict : Type 0 where
  allow denied needs_approval : Verdict

pub record PolicyDecision : Type 0 where
  pub decision : Verdict
  pub policy_version : String
  pub catalog_version : Option String
  pub blast_radius_tier : Option ℕ
  pub required_approver_roles : List String
  pub rules : List RuleResult
