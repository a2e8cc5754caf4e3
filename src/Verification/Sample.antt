-- ===== src/Verification/Sample.antt =====
-- packages/domain/verification.py: `evaluate_sample`, which checks one observation. A check's
-- result names its check and what was observed, from which the source prints the `detail` text.
-- Measured values are bit patterns of doubles that are not negative.
pub mod Meaning
pub mod Passing
use incident_triage.Base.{
  ℕ, String, Bool, true, false, not, ◌&&◌, Option, none, some, List, [], ◌∷◌, map, Value, null,
  flag, int, text, other, Document, get_or, lookup, if◌then◌else◌, string_eq, nat_eq, ◌==◌, leb,
  all, find, is_empty, is_some,
}
use incident_triage.Builtins.{Builtins}
use incident_triage.Verification.Policy.{
  CheckKind, state_deployment_version, state_config_value, state_flag, state_replicas,
  health_status, metric_max, alerts_no_new_firing,
}
use incident_triage.Verification.Spec.{CheckSpec, VerificationSpec}

-- A value of `health["signals"]`: a number, a dictionary with or without a number under
-- `value`, or anything else.
pub data Reading : Type 0 where
  number : ℕ → Reading
  described : Option ℕ → Reading
  unreadable : Reading

pub record Health : Type 0 where
  pub status : Value
  pub signals : List (String × Reading)

pub record Runtime : Type 0 where
  pub replicas : Value
  pub flags : Document

-- A source is `none` when it was not read; a dictionary that lacks an entry counts as one where
-- it is null or empty.
pub record Sample : Type 0 where
  pub health : Option Health
  pub deployment : Option Document
  pub config : Option Document
  pub runtime : Option Runtime
  pub new_firing_alerts : Option ℕ
  pub errors : List String

pub data Observed : Type 0 where
  value : Value → Observed
  measure : Option ℕ → Observed
  count : Option ℕ → Observed

pub record CheckResult : Type 0 where
  pub check : CheckSpec
  pub ok : Option Bool
  pub observed : Observed

pub record ObservationResult : Type 0 where
  pub passed : Bool
  pub conclusive : Bool
  pub definitive_failure : Option CheckResult
  pub checks : List CheckResult

-- Python's `==` on JSON values, where `True == 1` and `False == 0`.
abbrev pub same_value : Value → Value → Bool
same_value null null = true
same_value (flag true) (flag b) = b
same_value (flag false) (flag b) = not b
same_value (flag b) (int n) = n == (if b then 1 else 0)
same_value (int n) (flag b) = n == (if b then 1 else 0)
same_value (int m) (int n) = m == n
same_value (text s) (text t) = s == t
same_value (other m) (other n) = m == n
same_value _ _ = false

abbrev pub is_null : Value → Bool
is_null null = true
is_null _ = false

abbrev pub text_or_empty : Option String → String
text_or_empty none = ""
text_or_empty (some s) = s

abbrev pub reading_number : Option Reading → Option ℕ
reading_number none = none
reading_number (some (number x)) = some x
reading_number (some (described x)) = x
reading_number (some unreadable) = none

abbrev pub signal_of : String → Option Health → Option ℕ
signal_of name none = none
signal_of name (some h) = reading_number (lookup name h.signals)

-- `_metric`
abbrev pub sample_metric : Sample → Option String → Option ℕ
sample_metric sample none = none
sample_metric sample (some name) = if name == "" then none else signal_of name sample.health

abbrev pub limit_or_zero : Option ℕ → ℕ
limit_or_zero none = 0
limit_or_zero (some m) = m

-- `next((r for r in results if r.check.definitive and r.ok is False), None)`
abbrev is_definitive_failure : CheckResult → Bool
is_definitive_failure r = r.check.definitive && elim r.ok [ some false ↦ true | _ ↦ false ]

-- `all(r.ok is not None ...)` and `all(r.ok ...)`
abbrev pub is_evaluated : CheckResult → Bool
is_evaluated r = is_some r.ok

abbrev pub is_ok : CheckResult → Bool
is_ok r = elim r.ok [ some true ↦ true | _ ↦ false ]

module _ (py : Builtins) where
  -- The branches of the loop over the checks, each on the source that its kind reads.
  abbrev pub check_deployment : CheckSpec → Option Document → CheckResult
  check_deployment c none = record { check = c; ok = none; observed = value null }
  check_deployment c (some d) =
      let v = get_or "version" null d in
      record { check = c; ok = some (same_value v c.expected); observed = value v }

  abbrev pub check_config : CheckSpec → Option Document → CheckResult
  check_config c none = record { check = c; ok = none; observed = value null }
  check_config c (some effective) =
      let v = get_or (text_or_empty c.key) null effective in
      record { check = c; ok = some (py.str_of v == py.str_of c.expected); observed = value v }

  abbrev pub check_flag : CheckSpec → Option Runtime → CheckResult
  check_flag c none = record { check = c; ok = none; observed = value null }
  check_flag c (some r) =
      let v = get_or (text_or_empty c.key) null r.flags in
      record { check = c; ok = some (py.lower (py.str_of v) == "false"); observed = value v }

  abbrev pub check_replicas : CheckSpec → Option Runtime → CheckResult
  check_replicas c none = record { check = c; ok = none; observed = value null }
  check_replicas c (some r) = record {
    check = c;
    ok = if is_null c.expected then none else some (same_value r.replicas c.expected);
    observed = value r.replicas;
  }

  abbrev pub check_health : CheckSpec → Option Health → CheckResult
  check_health c none = record { check = c; ok = none; observed = value null }
  check_health c (some h) = record {
    check = c;
    ok = some (same_value h.status (text "healthy"));
    observed = value h.status;
  }

  abbrev pub check_metric : CheckSpec → Option ℕ → CheckResult
  check_metric c none = record { check = c; ok = none; observed = measure none }
  check_metric c (some m) = record {
    check = c;
    ok = some (leb m (limit_or_zero c.max_value));
    observed = measure (some m);
  }

  abbrev pub check_alerts : CheckSpec → Option ℕ → CheckResult
  check_alerts c none = record { check = c; ok = none; observed = count none }
  check_alerts c (some n) = record { check = c; ok = some (n == 0); observed = count (some n) }

  abbrev pub check_kind : CheckKind → Sample → CheckSpec → CheckResult
  check_kind state_deployment_version sample c = check_deployment c sample.deployment
  check_kind state_config_value sample c = check_config c sample.config
  check_kind state_flag sample c = check_flag c sample.runtime
  check_kind state_replicas sample c = check_replicas c sample.runtime
  check_kind health_status sample c = check_health c sample.health
  check_kind metric_max sample c = check_metric c (sample_metric sample c.metric)
  check_kind alerts_no_new_firing sample c = check_alerts c sample.new_firing_alerts

  unfoldable pub check_sample : Sample → CheckSpec → CheckResult
  check_sample sample c = check_kind c.kind sample c

  unfoldable pub evaluate_sample : VerificationSpec → Sample → ObservationResult
  evaluate_sample spec sample =
      let results = map (check_sample sample) spec.checks in
      let conclusive = is_empty sample.errors && all is_evaluated results in
      record {
        passed = conclusive && all is_ok results;
        conclusive = conclusive;
        definitive_failure = find is_definitive_failure results;
        checks = results;
      }
