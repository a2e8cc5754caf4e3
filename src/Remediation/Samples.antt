-- ===== src/Remediation/Samples.antt =====
-- A remediation that the runs of the catalog, the policy and the commands start from.
use incident_triage.Base.{true, false, Option, none, some, [], ◌∷◌, text, Document}
use incident_triage.Builtins.{sample_builtins}
use incident_triage.Errors.{Result, ok, err}
use incident_triage.Incident.Status.{IncidentStatus}
use incident_triage.Incident.Row.{IncidentRow}
use incident_triage.Remediation.Status.{RemediationStatus}
use incident_triage.Remediation.Catalog.{
  Validator, Params, ParamsModel, restart_service_params, restart, ActionCatalogEntry,
}
use incident_triage.Remediation.Proposal.{
  RemediationProposal, PolicyEvaluationContext, Source, needs_approval,
}
use incident_triage.Remediation.Rows.{RemediationRow, Db}
use incident_triage.Remediation.Core.Approval.{Decision}
use incident_triage.Remediation.Core.Execution.{Environment}
use incident_triage.Policy.{catalog_version}
use incident_triage.Verification.Policy.{
  CheckTemplate, health_status, metric_max, alerts_no_new_firing,
}

abbrev restarts : ParamsModel → Option Params
restarts restart_service_params = some (restart "checkout")
restarts _ = none

-- A validator that knows one document.
abbrev pub validator : Validator
validator = record { model_validate = λ m d. restarts m }

abbrev pub parameters : Document
parameters = ("service", text "checkout") ∷ []

abbrev check : CheckTemplate
check = record { kind = health_status; metric = none; max_value = none }

abbrev pub restart_service : ActionCatalogEntry
restart_service = record {
  action_id = "restart_service";
  parameters = restart_service_params;
  allowed_environments = "production" ∷ "staging" ∷ [];
  base_blast_radius = 1;
  max_blast_radius = 1;
  approval_mandatory = true;
  auto_execution_allowed = false;
  timeout_seconds = 120;
  max_attempts = 2;
  retry_safe = true;
  requires_rca = true;
  target_must_match_root_cause = true;
  verification = record {
    grace_seconds = 45;
    window_seconds = 240;
    poll_interval_seconds = 15;
    required_consecutive = 3;
    baseline_required = true;
    checks =
        check
        ∷ record {
          kind = metric_max;
          metric = some "error_rate";
          max_value = some 0x3FA999999999999A;
        }
        ∷ record { kind = alerts_no_new_firing; metric = none; max_value = none }
        ∷ [];
  };
}

abbrev pub proposal : RemediationProposal
proposal = record {
  incident_id = 1;
  investigation_id = some 2;
  action_id = "restart_service";
  parameters = parameters;
  reason = "crash loop";
  expected_effect = "healthy";
  source = Source.planner;
  proposed_by = "planner";
}

abbrev pub context : PolicyEvaluationContext
context = record {
  context_id = 3;
  captured_at = 100;
  incident_id = 1;
  incident_environment = "production";
  incident_severity = "critical";
  incident_service = "checkout";
  incident_status = IncidentStatus.rca_ready;
  investigation_status = some "COMPLETED";
  rca_available = true;
  rca_cause_category = some "resource";
  rca_component = some "checkout";
  target_service = some "checkout";
  target_known = true;
  target_in_incident_scope = true;
  action_blast_radius_tier = some 1;
  attempted_remediations_this_incident = 0;
  remediation_executions_last_hour_for_target = 0;
  global_kill_switch_engaged = false;
  service_kill_switch_engaged = false;
  proposal_source = Source.planner;
}

abbrev pub environment : Environment
environment = record {
  validator = validator;
  services = "checkout" ∷ [];
  builtins = sample_builtins;
  time_scale = 1000000;
}

abbrev row : RemediationRow
row = record {
  id = 5;
  incident_id = 1;
  investigation_id = some 2;
  idempotency_key = "k";
  action_id = "restart_service";
  catalog_version = catalog_version;
  parameters = parameters;
  target_service = "checkout";
  environment = "production";
  blast_radius_tier = some 1;
  proposal_hash = "h";
  source = Source.planner;
  proposed_by = "planner";
  status = RemediationStatus.awaiting_approval;
  policy_decision_id = some 6;
  approval_status = none;
  execution_status = none;
  execution_attempts = 0;
  lease_owner = none;
  lease_expires_at = none;
  verification_ref = none;
  failure_reason = none;
  version = 3;
  created_at = 100;
  updated_at = 200;
  completed_at = none;
}

abbrev incident : IncidentRow
incident = record {
  id = 1;
  status = IncidentStatus.awaiting_approval;
  severity = "critical";
  service = "checkout";
  environment = "production";
  attempt_count = 1;
  version = 4;
  updated_at = 200;
}

abbrev pub awaiting : Db
awaiting = record {
  row = row;
  decision = some (record {
    id = 6;
    proposal_hash = "h";
    decision = needs_approval;
    required_approver_roles = "on_call_engineer" ∷ [];
  });
  approval = none;
  executions = [];
  baseline = none;
  verifications = [];
  incident = incident;
  engaged_scopes = [];
  timeline = [];
  outbox = [];
  next_id = 10;
}

abbrev pub approval_decision : Decision
approval_decision = record {
  approver = "alice";
  approver_roles = "on_call_engineer" ∷ [];
  approve = true;
  proposal_hash = "h";
  policy_decision_id = 6;
}

-- The database that a command commits, or else the one given.
abbrev pub committed : Db → Result Db → Db
committed db (ok db') = db'
committed db (err e) = db

abbrev pub claimed_in {ℓ} : {T : Type ℓ} → Db → Result (Db × T) → Db
claimed_in db (ok (db', t)) = db'
claimed_in db (err e) = db
