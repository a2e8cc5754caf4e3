-- ===== src/Policy.antt =====
-- packages/policy/engine.py: the policy engine, which decides on a proposal from the catalog
-- entry, the policy and the facts of the context.
pub mod Gates
use incident_triage.Base.{
  ℕ, String, Bool, true, false, not, ◌&&◌, Option, none, some, List, [], ◌∷◌, ◌++◌, if◌then◌else◌,
  leb, ltb, ◌==◌, string_eq, nat_eq, option_eq, contains, get_or, any, is_some, is_empty,
}
use incident_triage.Incident.Status.{IncidentStatus, incident_status_eq, rca_ready}
use incident_triage.Remediation.Catalog.{
  Validator, Params, ActionCatalogEntry, validate, blast_radius,
}
use incident_triage.Remediation.Proposal.{
  RemediationProposal, PolicyEvaluationContext, Outcome, pass, deny, require_approval, RuleId,
  kill_switch_global, kill_switch_service, action_known, action_parameters,
  action_auto_execution_not_requested, target_known, target_in_incident_scope,
  environment_not_prohibited, environment_allowed_for_action, blast_radius_action_max,
  blast_radius_environment_max, incident_remediable_status, rca_required,
  rca_target_matches_root_cause, attempts_per_incident, attempts_per_service_per_hour,
  approval_required, approval_eligible_role_exists, RuleResult, Verdict, allow, denied,
  needs_approval, PolicyDecision,
}

pub record Policy : Type 0 where
  pub version : String
  pub prohibited_environments : List String
  pub max_blast_radius_by_environment : List (String × ℕ)
  pub max_attempted_remediations_per_incident : ℕ
  pub max_executions_per_service_per_hour : ℕ
  pub approver_roles_by_tier : List (ℕ × List String)
  pub auto_execution_environments : List String
  pub remediable_incident_statuses : List IncidentStatus

unfoldable pub default_policy : Policy
default_policy = record {
  version = "policy-2026.09-1";
  prohibited_environments = [];
  max_blast_radius_by_environment = ("production", 2) ∷ ("staging", 2) ∷ [];
  max_attempted_remediations_per_incident = 2;
  max_executions_per_service_per_hour = 3;
  approver_roles_by_tier =
      (1, "on_call_engineer" ∷ "service_owner" ∷ []) ∷ (2, "service_owner" ∷ []) ∷ [];
  auto_execution_environments = [];
  remediable_incident_statuses = rca_ready ∷ [];
}

abbrev pub catalog_version : String
catalog_version = "catalog-2026.09-1"

-- `rule(rule_id, ok, detail)`
abbrev pub rule : RuleId → Bool → RuleResult
rule rule_id ok = record { rule_id = rule_id; outcome = if ok then pass else deny }

abbrev pub is_deny : RuleResult → Bool
is_deny r = elim r.outcome [ deny ↦ true | _ ↦ false ]

abbrev pub is_require_approval : RuleResult → Bool
is_require_approval r = elim r.outcome [ require_approval ↦ true | _ ↦ false ]

-- The tier of the validated parameters.
abbrev pub tier_of : Option ActionCatalogEntry → Option Params → Option ℕ
tier_of (some entry) (some params) = some (blast_radius entry params)
tier_of _ _ = none

abbrev pub validated : Validator → Option ActionCatalogEntry → RemediationProposal → Option Params
validated v none proposal = none
validated v (some entry) proposal = validate v entry proposal.parameters

-- The rules in the order of the source, in groups.
abbrev pub kill_switch_rules : PolicyEvaluationContext → List RuleResult
kill_switch_rules context =
    rule kill_switch_global (not context.global_kill_switch_engaged)
    ∷ rule kill_switch_service (not context.service_kill_switch_engaged)
    ∷ []

abbrev pub action_rules : Option ActionCatalogEntry → Option Params → List RuleResult
action_rules none params = rule action_known false ∷ []
action_rules (some entry) params =
    rule action_known true
    ∷ rule action_parameters (is_some params)
    ∷ rule action_auto_execution_not_requested true
    ∷ []

abbrev pub target_rules : PolicyEvaluationContext → List RuleResult
target_rules context =
    rule target_known context.target_known
    ∷ rule target_in_incident_scope context.target_in_incident_scope
    ∷ []

abbrev pub environment_rules :
    Option ActionCatalogEntry → Policy → PolicyEvaluationContext → List RuleResult
environment_rules none policy context =
    rule environment_not_prohibited
      (not (contains policy.prohibited_environments context.incident_environment))
    ∷ []
environment_rules (some entry) policy context =
    rule environment_not_prohibited
      (not (contains policy.prohibited_environments context.incident_environment))
    ∷ rule environment_allowed_for_action
        (contains entry.allowed_environments context.incident_environment)
    ∷ []

abbrev pub blast_radius_rules :
    Option ActionCatalogEntry → Option ℕ → Policy → PolicyEvaluationContext → List RuleResult
blast_radius_rules (some entry) (some tier) policy context =
    rule blast_radius_action_max (leb tier entry.max_blast_radius)
    ∷ rule blast_radius_environment_max
        (leb tier (get_or context.incident_environment 0 policy.max_blast_radius_by_environment))
    ∷ []
blast_radius_rules _ _ policy context = []

abbrev pub rca_rules : Option ActionCatalogEntry → PolicyEvaluationContext → List RuleResult
rca_rules none context = []
rca_rules (some entry) context =
    if entry.requires_rca
    then rule rca_required context.rca_available
      ∷ (if entry.target_must_match_root_cause && context.rca_available
          then rule rca_target_matches_root_cause (context.target_service == context.rca_component)
            ∷ []
          else [])
    else []

abbrev pub incident_rules : Policy → PolicyEvaluationContext → List RuleResult
incident_rules policy context =
    rule incident_remediable_status
      (contains policy.remediable_incident_statuses context.incident_status)
    ∷ []

abbrev pub attempt_rules : Policy → PolicyEvaluationContext → List RuleResult
attempt_rules policy context =
    rule attempts_per_incident (
      ltb context.attempted_remediations_this_incident
        policy.max_attempted_remediations_per_incident)
    ∷ rule attempts_per_service_per_hour (
        ltb context.remediation_executions_last_hour_for_target
          policy.max_executions_per_service_per_hour)
    ∷ []

abbrev tier_or_zero : Option ℕ → ℕ
tier_or_zero none = 0
tier_or_zero (some t) = t

abbrev pub roles_for : Policy → Option ℕ → List String
roles_for policy tier = get_or (tier_or_zero tier) [] policy.approver_roles_by_tier

abbrev pub is_automatic : Option ActionCatalogEntry → Policy → PolicyEvaluationContext → Bool
is_automatic none policy context = false
is_automatic (some entry) policy context =
    contains policy.auto_execution_environments context.incident_environment
    && entry.auto_execution_allowed
    && not entry.approval_mandatory

abbrev pub approval_rules : Bool → List String → List RuleResult
approval_rules automatic roles =
    record { rule_id = approval_required; outcome = if automatic then pass else require_approval }
    ∷ (if is_empty roles then rule approval_eligible_role_exists false ∷ [] else [])

unfoldable pub rules_of :
    Option ActionCatalogEntry → Option Params → Policy → PolicyEvaluationContext → List RuleResult
rules_of entry params policy context =
    kill_switch_rules context
    ++ (action_rules entry params
        ++ (target_rules context
            ++ (environment_rules entry policy context
                ++ (blast_radius_rules entry (tier_of entry params) policy context
                    ++ (incident_rules policy context
                        ++ (rca_rules entry context
                            ++ (attempt_rules policy context
                                ++ approval_rules (is_automatic entry policy context)
                                    (roles_for policy (tier_of entry params)))))))))

abbrev pub verdict_of : List RuleResult → Verdict
verdict_of rules =
    if any is_deny rules
    then denied
    else if any is_require_approval rules
    then needs_approval
    else allow

abbrev is_needs_approval : Verdict → Bool
is_needs_approval needs_approval = true
is_needs_approval _ = false

unfoldable pub evaluate :
    Validator
    → RemediationProposal
    → Option ActionCatalogEntry
    → Policy
    → PolicyEvaluationContext
    → PolicyDecision
evaluate v proposal entry policy context =
    let params = validated v entry proposal in
    let rules = rules_of entry params policy context in
    let decision = verdict_of rules in
    record {
      decision = decision;
      policy_version = policy.version;
      catalog_version = if is_some entry then some catalog_version else none;
      blast_radius_tier = tier_of entry params;
      required_approver_roles =
          if is_needs_approval decision then roles_for policy (tier_of entry params) else [];
      rules = rules;
    }
