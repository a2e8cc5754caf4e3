-- ===== src/Remediation/Tests.antt =====
-- packages/remediation/catalog.py and packages/policy/engine.py: the entry and the decision for a
-- restart.
use incident_triage.Base.{◌≡◌, ◌≤◌, ◌⊎◌, refl, true, some, contains, Document, arith, string_eq}
use incident_triage.Incident.Status.{rca_ready}
use incident_triage.Remediation.Catalog.{
  IsStrict, Fits, ParamsModel, Params, restart, restart_service_params, catalog, get_entry,
  validate, blast_radius,
}
use incident_triage.Remediation.Catalog.Bounds.{blast_radius_bounds}
use incident_triage.Remediation.Proposal.{denied, needs_approval}
use incident_triage.Policy.{evaluate, default_policy, validated, rules_of}
use incident_triage.Policy.Gates.{Permits, evaluate-Permits, evaluate-default}
use incident_triage.Remediation.Samples.{validator, parameters, restart_service, proposal, context}

restart_known : get_entry "restart_service" ≡ some restart_service
unfolding get_entry catalog
restart_known = refl

validator-IsStrict : IsStrict validator
validator-IsStrict = record { fits = fits }
  where
    fits :
        (m : ParamsModel) (d : Document) (p : Params)
        → validator.model_validate m d ≡ some p
        → Fits m p
    fits restart_service_params d (restart service) h = tt
    fits m d p h = ground arith

valid : validate validator restart_service parameters ≡ some (restart "checkout")
unfolding validate
valid = refl

blast_radius_bounds_example :
    (1 ≤ blast_radius restart_service (restart "checkout"))
    × (blast_radius restart_service (restart "checkout") ≤ restart_service.max_blast_radius)
blast_radius_bounds_example =
    blast_radius_bounds validator validator-IsStrict "restart_service" parameters restart_known
      valid

restart_waits :
    (evaluate validator proposal (some restart_service) default_policy context).decision
    ≡ needs_approval
unfolding evaluate default_policy validate blast_radius rules_of
restart_waits = refl

evaluate-Permits_example :
    Permits
      (some restart_service)
      (validated validator (some restart_service) proposal)
      default_policy
      context
evaluate-Permits_example =
    (evaluate-Permits validator proposal (some restart_service) default_policy context).0
      (λ h. cc (restart_waits, h))

evaluate-default_example :
    ((evaluate validator proposal (some restart_service) default_policy context).decision ≡ denied)
    ⊎ (((evaluate validator proposal (some restart_service) default_policy context).decision
          ≡ needs_approval)
        × (contains
              (evaluate validator proposal
                (some restart_service)
                default_policy
                context).required_approver_roles
              "service_owner"
            ≡ true)
        × (context.incident_status ≡ rca_ready))
evaluate-default_example = evaluate-default validator proposal (some restart_service) context
