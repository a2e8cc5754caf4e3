-- ===== src/Verification/Policy.antt =====
-- packages/domain/verification.py: what an action's catalog entry says of its verification.
-- A limit is the bit pattern of a double that is not negative: the order of these patterns is
-- the order of the numbers.
use incident_triage.Base.{ℕ, ◌+◌, ◌*◌, String, Bool, true, false, Option, List}

pub data CheckKind : Type 0 where
  state_deployment_version state_config_value state_flag state_replicas : CheckKind
  health_status metric_max alerts_no_new_firing : CheckKind

pub data VerificationStatus : Type 0 where
  pending running passed failed timed_out : VerificationStatus

abbrev pub is_terminal : VerificationStatus → Bool
is_terminal pending = false
is_terminal running = false
is_terminal _ = true

pub record CheckTemplate : Type 0 where
  pub kind : CheckKind
  pub metric : Option String
  pub max_value : Option ℕ

pub record VerificationPolicy : Type 0 where
  pub grace_seconds : ℕ
  pub window_seconds : ℕ
  pub poll_interval_seconds : ℕ
  pub required_consecutive : ℕ
  pub baseline_required : Bool
  pub checks : List CheckTemplate

abbrev pub timeout_seconds : VerificationPolicy → ℕ
timeout_seconds p = p.grace_seconds + p.window_seconds + 2 * p.poll_interval_seconds
