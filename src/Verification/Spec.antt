-- ===== src/Verification/Spec.antt =====
-- packages/domain/verification.py: `build_spec` resolves a policy against the parameters and the
-- baseline. Durations are microseconds and the time scale is in millionths, so that a scaled
-- number of seconds is a number of microseconds; a negative scale is 0, as `max` makes it.
-- `none` where `int(...)` or the
-- validation of a check raises. The policy's version is a constant text and is left out.
use incident_triage.Base.{
  ℕ, ◌+◌, ◌*◌, String, Bool, true, false, Option, none, some, List, [], ◌∷◌, Value, null, int, text,
  Document, get_or, string_eq,
}
use incident_triage.Builtins.{Builtins}
use incident_triage.Verification.Policy.{
  CheckKind, state_deployment_version, state_config_value, state_flag, state_replicas,
  health_status, metric_max, alerts_no_new_firing, CheckTemplate, VerificationPolicy,
  timeout_seconds,
}

pub record CheckSpec : Type 0 where
  pub kind : CheckKind
  pub metric : Option String
  pub max_value : Option ℕ
  pub key : Option String
  pub expected : Value
  pub definitive : Bool

pub record VerificationSpec : Type 0 where
  pub action_id : String
  pub target_service : String
  pub grace : ℕ
  pub window : ℕ
  pub poll_interval : ℕ
  pub timeout : ℕ
  pub required_consecutive : ℕ
  pub checks : List CheckSpec

-- The part of a baseline that `build_spec` reads: `baseline["runtime"]["replicas"]`.
pub record Baseline : Type 0 where
  pub replicas : Option Value

infixl 5 ◌>>=◌
abbrev ◌>>=◌ {ℓ κ} : {A : Type ℓ} {B : Type κ} → Option A → (A → Option B) → Option B
none >>= f = none
some a >>= f = f a

abbrev plain : CheckKind → Value → Bool → CheckSpec
plain kind expected definitive = record {
  kind = kind;
  metric = none;
  max_value = none;
  key = none;
  expected = expected;
  definitive = definitive;
}

-- `((baseline or {}).get("runtime") or {}).get("replicas")`; a null counts as none
abbrev pub replicas_before : Option Baseline → Option Value
replicas_before none = none
replicas_before (some b) = elim b.replicas [ none ↦ none | some null ↦ none | some v ↦ some v ]

-- The field `key: str | None` of a check: any other value fails its validation.
abbrev pub optional_text : Value → Option (Option String)
optional_text null = some none
optional_text (text s) = some (some s)
optional_text _ = none

module _ (py : Builtins) where
  abbrev expected_replicas : Option Value → Value → Option Value
  expected_replicas none increase_by = some null
  expected_replicas (some before) increase_by = do
    n ← py.int_of before
    k ← py.int_of increase_by
    some (int (n + k))

  unfoldable pub build_check : Document → Option Baseline → CheckTemplate → Option CheckSpec
  build_check parameters baseline t = elim t.kind [
    | state_deployment_version ↦
        some (plain state_deployment_version (get_or "to_version" null parameters) true)
    | state_config_value ↦ do
      key ← optional_text (get_or "key" null parameters)
      some
          (record (plain state_config_value (get_or "to_value" null parameters) true) { key = key })
    | state_flag ↦ do
      key ← optional_text (get_or "flag" null parameters)
      some (record (plain state_flag (text "false") true) { key = key })
    | state_replicas ↦ do
      expected ←
          expected_replicas (replicas_before baseline) (get_or "increase_by" (int 0) parameters)
      some (plain state_replicas expected true)
    | health_status ↦ some (plain health_status (text "healthy") false)
    | metric_max ↦
        some (record (plain metric_max null false) { metric = t.metric; max_value = t.max_value })
    | alerts_no_new_firing ↦ some (plain alerts_no_new_firing (int 0) false)
  ]

  unfoldable pub build_checks :
      Document → Option Baseline → List CheckTemplate → Option (List CheckSpec)
  build_checks parameters baseline [] = some []
  build_checks parameters baseline (t ∷ ts) = do
    c ← build_check parameters baseline t
    cs ← build_checks parameters baseline ts
    some (c ∷ cs)

  unfoldable pub build_spec :
      VerificationPolicy → String → Document → Option Baseline → ℕ → Option VerificationSpec
  build_spec policy action_id parameters baseline time_scale = do
    checks ← build_checks parameters baseline policy.checks
    some (record {
      action_id = action_id;
      target_service = py.str_of (get_or "service" (text "") parameters);
      grace = policy.grace_seconds * time_scale;
      window = policy.window_seconds * time_scale;
      poll_interval = policy.poll_interval_seconds * time_scale;
      timeout = timeout_seconds policy * time_scale;
      required_consecutive = policy.required_consecutive;
      checks = checks;
    })
