-- ===== src/Policy/Gates.antt =====
-- packages/policy/engine.py: what a proposal must meet.
use incident_triage.Base.{
  ℕ, ◌≤◌, ◌<◌, ◌≡◌, ◌≢◌, ◌↔◌, refl, ◌⊎◌, Bool, true, false, Option, none, some, List, String, arith,
  contains, get_or, string_eq, is_empty, option_beq_iff, any, any-append, ◌++◌, true-false-apart,
  inl, inr, eq_iff,
}
use incident_triage.Incident.Status.{IncidentStatus, incident_status_eq, rca_ready}
use incident_triage.Remediation.Catalog.{Validator, Params, ActionCatalogEntry, blast_radius}
use incident_triage.Remediation.Proposal.{
  RemediationProposal, PolicyEvaluationContext, denied, needs_approval, RuleResult,
}
use incident_triage.Policy.{
  Policy, evaluate, rules_of, roles_for, tier_of, is_deny, kill_switch_rules, default_policy,
  action_rules, target_rules, environment_rules, blast_radius_rules, incident_rules, rca_rules,
  attempt_rules, approval_rules, is_automatic, verdict_of, validated, is_require_approval,
}

-- Every gate that stands between a proposal with valid parameters and a human's approval.
pub record IsPermitted (policy : Policy) (entry : ActionCatalogEntry) (params : Params)
    (context : PolicyEvaluationContext) : Type 0 where
  pub switches_released :
      (context.global_kill_switch_engaged ≡ false) × (context.service_kill_switch_engaged ≡ false)
  pub target_is_known : context.target_known ≡ true
  pub target_in_scope : context.target_in_incident_scope ≡ true
  pub not_prohibited : contains policy.prohibited_environments context.incident_environment ≡ false
  pub allowed_here : contains entry.allowed_environments context.incident_environment ≡ true
  pub tier_in_action : blast_radius entry params ≤ entry.max_blast_radius
  pub tier_in_environment :
      blast_radius entry params
      ≤ get_or context.incident_environment 0 policy.max_blast_radius_by_environment
  pub remediable : contains policy.remediable_incident_statuses context.incident_status ≡ true
  pub has_rca : entry.requires_rca ≡ true → context.rca_available ≡ true
  pub at_root_cause :
      entry.requires_rca ≡ true
      → entry.target_must_match_root_cause ≡ true
      → context.target_service ≡ context.rca_component
  pub attempts_left :
      context.attempted_remediations_this_incident < policy.max_attempted_remediations_per_incident
  pub executions_left :
      context.remediation_executions_last_hour_for_target
      < policy.max_executions_per_service_per_hour
  pub has_roles : is_empty (roles_for policy (some (blast_radius entry params))) ≡ false

IsPermitted-if_undenied :
    (policy : Policy) (entry : ActionCatalogEntry) (params : Params)
    (context : PolicyEvaluationContext)
    → any is_deny (rules_of (some entry) (some params) policy context) ≡ false
    → IsPermitted policy entry params context
unfolding rules_of
IsPermitted-if_undenied policy entry params context h =
    ground (arith, option_beq_iff context.target_service context.rca_component)

undenied_if_permitted :
    (policy : Policy) (entry : ActionCatalogEntry) (params : Params)
    (context : PolicyEvaluationContext)
    → IsPermitted policy entry params context
    → any is_deny (rules_of (some entry) (some params) policy context) ≡ false
unfolding rules_of
undenied_if_permitted policy entry params context h =
    ground (arith, option_beq_iff context.target_service context.rca_component)

rejected_if_invalid :
    (policy : Policy) (entry : ActionCatalogEntry) (context : PolicyEvaluationContext)
    → any is_deny (rules_of (some entry) none policy context) ≡ true
unfolding rules_of
rejected_if_invalid policy entry context = ground arith

rejected_if_unknown :
    (params : Option Params) (policy : Policy) (context : PolicyEvaluationContext)
    → any is_deny (rules_of none params policy context) ≡ true
unfolding rules_of
rejected_if_unknown params policy context = ground arith

verdict-denied :
    (rules : List RuleResult) → (verdict_of rules ≢ denied) ↔ (any is_deny rules ≡ false)
verdict-denied rules = (λ h. ground (arith, h), λ h e. ground arith)

abbrev pub Permits :
    Option ActionCatalogEntry → Option Params → Policy → PolicyEvaluationContext → Type 0
Permits entry params policy context =
    (e : ActionCatalogEntry) × (p : Params) × (entry ≡ some e)
    × (params ≡ some p)
    × IsPermitted policy e p context

undenied-Permits :
    (entry : Option ActionCatalogEntry) (params : Option Params) (policy : Policy)
    (context : PolicyEvaluationContext)
    → any is_deny (rules_of entry params policy context) ≡ false
    → Permits entry params policy context
undenied-Permits none params policy context h =
    absurd (true-false-apart _ (rejected_if_unknown params policy context) h)
undenied-Permits (some e) none policy context h =
    absurd (true-false-apart _ (rejected_if_invalid policy e context) h)
undenied-Permits (some e) (some p) policy context h =
    (e, p, refl, refl, IsPermitted-if_undenied policy e p context h)

Permits-undenied :
    (entry : Option ActionCatalogEntry) (params : Option Params) (policy : Policy)
    (context : PolicyEvaluationContext)
    → Permits entry params policy context
    → any is_deny (rules_of entry params policy context) ≡ false
Permits-undenied entry params policy context (e, p, known, valid, h) =
    rw (known, valid) (undenied_if_permitted policy e p context h)

-- A proposal is not denied exactly when its action is in the catalog, its parameters are valid
-- and every gate lets it pass.
pub evaluate-Permits :
    (v : Validator) (proposal : RemediationProposal) (entry : Option ActionCatalogEntry)
    (policy : Policy) (context : PolicyEvaluationContext)
    → ((evaluate v proposal entry policy context).decision ≢ denied)
      ↔ Permits entry (validated v entry proposal) policy context
unfolding evaluate
evaluate-Permits v proposal entry policy context = (
  λ h.
      undenied-Permits entry _ policy context
        ((verdict-denied (rules_of entry (validated v entry proposal) policy context)).0 h),
  λ h.
      (verdict-denied (rules_of entry (validated v entry proposal) policy context)).1
        (Permits-undenied entry _ policy context h),
)

-- the tiers that have approvers under the default policy
default_roles :
    (tier : ℕ)
    → is_empty (roles_for default_policy (some tier)) ≡ false
    → contains (roles_for default_policy (some tier)) "service_owner" ≡ true
unfolding default_policy
default_roles tier h = ground arith

default_environments :
    (tier : ℕ) (environment : String)
    → 1 ≤ tier
    → tier ≤ get_or environment 0 default_policy.max_blast_radius_by_environment
    → (environment ≡ "production") ⊎ (environment ≡ "staging")
unfolding default_policy
default_environments tier environment p h =
    ground (arith, eq_iff environment "production", eq_iff environment "staging")

never_automatic :
    (entry : Option ActionCatalogEntry) (context : PolicyEvaluationContext)
    → is_automatic entry default_policy context ≡ false
unfolding default_policy
never_automatic none context = refl
never_automatic (some entry) context = refl

any_last :
    (p : RuleResult → Bool) (a b c d e f g h l : List RuleResult)
    → any p l ≡ true
    → any p (a ++ (b ++ (c ++ (d ++ (e ++ (f ++ (g ++ (h ++ l)))))))) ≡ true
any_last p a b c d e f g h l t = simp any-append (ground arith)

requires_approval :
    (entry : Option ActionCatalogEntry) (params : Option Params) (context : PolicyEvaluationContext)
    → any is_require_approval (rules_of entry params default_policy context) ≡ true
unfolding rules_of
requires_approval entry params context =
    let tier = tier_of entry params in
    any_last is_require_approval (kill_switch_rules context) (action_rules entry params)
      (target_rules context) (environment_rules entry default_policy context)
      (blast_radius_rules entry tier default_policy context) (incident_rules default_policy context)
      (rca_rules entry context) (attempt_rules default_policy context)
      (approval_rules (is_automatic entry default_policy context) (roles_for default_policy tier))
      (rw (never_automatic entry context) refl)

default_statuses :
    (s : IncidentStatus)
    → contains default_policy.remediable_incident_statuses s ≡ true
    → s ≡ rca_ready
unfolding default_policy
default_statuses s h = ground arith

verdict-needs_approval :
    (rules : List RuleResult)
    → any is_require_approval rules ≡ true
    → (verdict_of rules ≡ denied) ⊎ (verdict_of rules ≡ needs_approval)
verdict-needs_approval rules h = ground arith

permitted_roles :
    (entry : Option ActionCatalogEntry) (params : Option Params) (context : PolicyEvaluationContext)
    → Permits entry params default_policy context
    → contains (roles_for default_policy (tier_of entry params)) "service_owner" ≡ true
permitted_roles entry params context (e, p, known, valid, gates) =
    rw (known, valid) (default_roles (blast_radius e p) gates.has_roles)

-- The default policy never allows a proposal outright. One that it does not deny awaits the
-- approval of a role among those listed, which are never none and have the service's owner, and
-- has its incident at `RCA_READY`.
pub evaluate-default :
    (v : Validator) (proposal : RemediationProposal) (entry : Option ActionCatalogEntry)
    (context : PolicyEvaluationContext)
    → let d = evaluate v proposal entry default_policy context in
      (d.decision ≡ denied)
      ⊎ ((d.decision ≡ needs_approval)
          × (contains d.required_approver_roles "service_owner" ≡ true)
          × (context.incident_status ≡ rca_ready))
unfolding evaluate
evaluate-default v proposal entry context =
    let params = validated v entry proposal in
    let rules = rules_of entry params default_policy context in
    elim (verdict-needs_approval rules (requires_approval entry params context)) [
      | inl refused ↦ inl refused
      | inr waits ↦
          let permitted =
            undenied-Permits entry params default_policy context
              ((verdict-denied rules).0 (λ h. cc)) in
          inr (
            waits,
            rw waits (permitted_roles entry params context permitted),
            default_statuses context.incident_status permitted.4.remediable,
          )
    ]
