-- ===== src/Remediation/Catalog.antt =====
-- packages/remediation/catalog.py: the actions that a remediation can name. Their parameter
-- models are pydantic's: a `Validator` says what `model_validate` returns, before the program's
-- own `field_validator`. The texts that only describe an entry are left out, and so are those of
-- a validation's problems.
pub mod Bounds
use incident_triage.Base.{
  ℕ, ◌+◌, ◌≤◌, String, ◌≡◌, ◌≢◌, Bool, true, false, Option, none, some, List, [], ◌∷◌, ltb,
  if◌then◌else◌, Value, null, Document, find, ◌==◌, string_eq,
}
use incident_triage.Verification.Policy.{
  VerificationPolicy, CheckTemplate, health_status, metric_max, alerts_no_new_firing,
  state_replicas, state_deployment_version, state_flag, state_config_value,
}

pub data ParamsModel : Type 0 where
  restart_service_params scale_service_params rollback_deployment_params : ParamsModel
  disable_feature_flag_params revert_configuration_params : ParamsModel

-- An instance of a parameter model.
pub data Params : Type 0 where
  restart : (service : String) → Params
  scale : (service : String) → (increase_by : ℕ) → Params
  rollback : (service from_version to_version : String) → Params
  disable_flag : (service flag_name : String) → Params
  revert : (service key : String) → (from_value to_value : Value) → Params

pub record Validator : Type 0 where
  pub model_validate : ParamsModel → Document → Option Params

-- An instance belongs to the model that validated it, and a number of instances to add lies
-- within the field's limits.
abbrev pub Fits : ParamsModel → Params → Type 0
Fits restart_service_params (restart service) = Unit
Fits scale_service_params (scale service increase_by) = (1 ≤ increase_by) × (increase_by ≤ 5)
Fits rollback_deployment_params (rollback service from_version to_version) = Unit
Fits disable_feature_flag_params (disable_flag service flag_name) = Unit
Fits revert_configuration_params (revert service key from_value to_value) = Unit
Fits _ _ = ⊥

pub record IsStrict (v : Validator) : Type 0 where
  pub fits :
      (m : ParamsModel) (d : Document) (p : Params) → v.model_validate m d ≡ some p → Fits m p

pub record ActionCatalogEntry : Type 0 where
  pub action_id : String
  pub parameters : ParamsModel
  pub allowed_environments : List String
  pub base_blast_radius : ℕ
  pub max_blast_radius : ℕ
  pub approval_mandatory : Bool
  pub auto_execution_allowed : Bool
  pub timeout_seconds : ℕ
  pub max_attempts : ℕ
  pub retry_safe : Bool
  pub requires_rca : Bool
  pub target_must_match_root_cause : Bool
  pub verification : VerificationPolicy

-- `_has_a_previous_value`, which rejects a change that had no previous value.
abbrev pub has_a_previous_value : Params → Option Params
has_a_previous_value (revert service key from_value null) = none
has_a_previous_value p = some p

abbrev check_previous : Option Params → Option Params
check_previous none = none
check_previous (some p) = has_a_previous_value p

-- `ActionCatalogEntry.validate`; `none` with the problems.
unfoldable pub validate : Validator → ActionCatalogEntry → Document → Option Params
validate v entry parameters = check_previous (v.model_validate entry.parameters parameters)

unfoldable pub blast_radius : ActionCatalogEntry → Params → ℕ
blast_radius entry (scale service increase_by) =
    if ltb 2 increase_by then entry.base_blast_radius + 1 else entry.base_blast_radius
blast_radius entry (restart service) = entry.base_blast_radius
blast_radius entry _ = entry.base_blast_radius

abbrev environments : List String
environments = "production" ∷ "staging" ∷ []

-- Limits as doubles: 0.05 and 1.0.
abbrev healthy : CheckTemplate
healthy = record { kind = health_status; metric = none; max_value = none }

abbrev no_new_alerts : CheckTemplate
no_new_alerts = record { kind = alerts_no_new_firing; metric = none; max_value = none }

abbrev errors_ok : CheckTemplate
errors_ok = record {
  kind = metric_max;
  metric = some "error_rate";
  max_value = some 0x3FA999999999999A;
}

abbrev latency_ok : CheckTemplate
latency_ok = record {
  kind = metric_max;
  metric = some "latency_p95";
  max_value = some 0x3FF0000000000000;
}

abbrev replicas_expected : CheckTemplate
replicas_expected = record { kind = state_replicas; metric = none; max_value = none }

abbrev version_expected : CheckTemplate
version_expected = record { kind = state_deployment_version; metric = none; max_value = none }

abbrev flag_off : CheckTemplate
flag_off = record { kind = state_flag; metric = none; max_value = none }

abbrev config_expected : CheckTemplate
config_expected = record { kind = state_config_value; metric = none; max_value = none }

abbrev policy : ℕ → ℕ → ℕ → ℕ → Bool → List CheckTemplate → VerificationPolicy
policy grace window poll required baseline checks = record {
  grace_seconds = grace;
  window_seconds = window;
  poll_interval_seconds = poll;
  required_consecutive = required;
  baseline_required = baseline;
  checks = checks;
}

unfoldable pub catalog : List ActionCatalogEntry
catalog =
    record {
      action_id = "restart_service";
      parameters = restart_service_params;
      allowed_environments = environments;
      base_blast_radius = 1;
      max_blast_radius = 1;
      approval_mandatory = true;
      auto_execution_allowed = false;
      timeout_seconds = 120;
      max_attempts = 2;
      retry_safe = true;
      requires_rca = true;
      target_must_match_root_cause = true;
      verification = policy 45 240 15 3 true (healthy ∷ errors_ok ∷ no_new_alerts ∷ []);
    }
    ∷ record {
      action_id = "scale_service";
      parameters = scale_service_params;
      allowed_environments = environments;
      base_blast_radius = 1;
      max_blast_radius = 2;
      approval_mandatory = true;
      auto_execution_allowed = false;
      timeout_seconds = 180;
      max_attempts = 1;
      retry_safe = false;
      requires_rca = true;
      target_must_match_root_cause = true;
      verification =
          policy 30 240 15 3 true (replicas_expected ∷ healthy ∷ latency_ok ∷ no_new_alerts ∷ []);
    }
    ∷ record {
      action_id = "rollback_deployment";
      parameters = rollback_deployment_params;
      allowed_environments = environments;
      base_blast_radius = 2;
      max_blast_radius = 2;
      approval_mandatory = true;
      auto_execution_allowed = false;
      timeout_seconds = 300;
      max_attempts = 2;
      retry_safe = true;
      requires_rca = true;
      target_must_match_root_cause = true;
      verification =
          policy 60 300 15 3 true
            (version_expected ∷ healthy ∷ errors_ok ∷ latency_ok ∷ no_new_alerts ∷ []);
    }
    ∷ record {
      action_id = "disable_feature_flag";
      parameters = disable_feature_flag_params;
      allowed_environments = environments;
      base_blast_radius = 1;
      max_blast_radius = 1;
      approval_mandatory = true;
      auto_execution_allowed = false;
      timeout_seconds = 60;
      max_attempts = 2;
      retry_safe = true;
      requires_rca = true;
      target_must_match_root_cause = true;
      verification = policy 30 180 15 2 false (flag_off ∷ healthy ∷ no_new_alerts ∷ []);
    }
    ∷ record {
      action_id = "revert_configuration";
      parameters = revert_configuration_params;
      allowed_environments = environments;
      base_blast_radius = 2;
      max_blast_radius = 2;
      approval_mandatory = true;
      auto_execution_allowed = false;
      timeout_seconds = 120;
      max_attempts = 2;
      retry_safe = true;
      requires_rca = true;
      target_must_match_root_cause = true;
      verification =
          policy 45 240 15 3 true (config_expected ∷ healthy ∷ errors_ok ∷ no_new_alerts ∷ []);
    }
    ∷ []

unfoldable pub get_entry : String → Option ActionCatalogEntry
get_entry action_id = find (λ e. e.action_id == action_id) catalog
