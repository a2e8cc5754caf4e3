-- ===== src/Correlation/Rules.antt =====
-- packages/domain/correlation_engine.py: the correlation rules. A rule class is a constructor
-- with the class's fields, and a signal is the text that the rule returns. Times are
-- microseconds, labels are dictionaries of texts; `name` fields, which nothing reads, are left
-- out. The default weights are hundredths.
use incident_triage.Base.{
  ℕ, ◌+◌, ◌-◌, ◌*◌, String, Bool, false, Option, none, some, List, [], ◌∷◌, leb, if◌then◌else◌,
  ◌==◌, string_eq, contains, lookup, get_or,
}
use incident_triage.Floats.{Floats}

abbrev pub Labels : Type 0
Labels = List (String × String)

pub record NewAlertContext : Type 0 where
  pub source : String
  pub fingerprint : String
  pub labels : Labels
  pub service : String
  pub environment : String
  pub received_at : ℕ

pub record CorrelationCandidate : Type 0 where
  pub incident_id : ℕ
  pub correlation_key : String
  pub status : String
  pub service : String
  pub environment : String
  pub most_recent_alert_received_at : ℕ
  pub most_recent_alert_labels : Labels
  pub most_recent_alert_fingerprint : String

pub data Signal : Type 0 where
  same_service same_environment same_alert_type related_alert_types : Signal
  same_label : String → Signal
  within_seconds : ℕ → Signal

abbrev pub default_temporal_window_seconds : ℕ
default_temporal_window_seconds = 90

-- `if value`: a text that is there and not empty
abbrev pub present : Option String → Option String
present none = none
present (some s) = if s == "" then none else some s

-- the distance of two times
abbrev pub distance : ℕ → ℕ → ℕ
distance a b = (a - b) + (b - a)

module _ (fl : Floats) where
  open fl use {Float, hundredths, mul}

  pub record RuleResult : Type 0 where
    pub contribution : Float
    pub signal : Option Signal

  pub data CorrelationRule : Type 0 where
    same_service_rule : Float → CorrelationRule
    same_environment_rule : Float → CorrelationRule
    same_label_value_rule : String → Float → CorrelationRule
    temporal_proximity_rule : Float → ℕ → CorrelationRule
    related_alert_type_rule :
        (weight related_weight_fraction : Float)
        → (related_alert_types : List (String × List String)) → CorrelationRule
    deployment_proximity_rule : Float → CorrelationRule

  abbrev pub fired : Float → Signal → RuleResult
  fired w s = record { contribution = w; signal = some s }

  abbrev pub silent : RuleResult
  silent = record { contribution = hundredths 0; signal = none }

  -- the test of `SameLabelValueRule`
  abbrev pub same_label_value : Option String → Option String → Bool
  same_label_value (some a) (some b) = a == b
  same_label_value _ _ = false

  -- `RelatedAlertTypeRule.evaluate`, on the two alert types
  abbrev pub related_types :
      Float → Float → List (String × List String) → Option String → Option String → RuleResult
  related_types weight fraction table (some new_type) (some candidate_type) =
      if new_type == candidate_type
      then fired weight same_alert_type
      else if contains (get_or new_type [] table) candidate_type
      then fired (mul weight fraction) related_alert_types
      else silent
  related_types weight fraction table _ _ = silent

  unfoldable pub evaluate : CorrelationRule → NewAlertContext → CorrelationCandidate → RuleResult
  evaluate (same_service_rule weight) alert candidate =
      if alert.service == candidate.service then fired weight same_service else silent
  evaluate (same_environment_rule weight) alert candidate =
      if alert.environment == candidate.environment then fired weight same_environment else silent
  evaluate (same_label_value_rule label_key weight) alert candidate =
      if same_label_value (present (lookup label_key alert.labels))
        (present (lookup label_key candidate.most_recent_alert_labels))
      then fired weight (same_label label_key)
      else silent
  evaluate (temporal_proximity_rule weight window_seconds) alert candidate =
      if leb (distance alert.received_at candidate.most_recent_alert_received_at)
        (window_seconds * 1000000)
      then fired weight (within_seconds window_seconds)
      else silent
  evaluate (related_alert_type_rule weight fraction table) alert candidate =
      related_types weight fraction table (present (lookup "alertname" alert.labels))
        (present (lookup "alertname" candidate.most_recent_alert_labels))
  evaluate (deployment_proximity_rule weight) alert candidate = silent

  unfoldable pub default_rules : ℕ → List (String × List String) → List CorrelationRule
  default_rules temporal_window_seconds table =
      same_service_rule (hundredths 30)
      ∷ same_environment_rule (hundredths 20)
      ∷ same_label_value_rule "region" (hundredths 10)
      ∷ same_label_value_rule "dependency" (hundredths 10)
      ∷ temporal_proximity_rule (hundredths 20) temporal_window_seconds
      ∷ related_alert_type_rule (hundredths 20) (hundredths 85) table
      ∷ deployment_proximity_rule (hundredths 0)
      ∷ []
