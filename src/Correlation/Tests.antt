-- ===== src/Correlation/Tests.antt =====
-- packages/domain/correlation_engine.py: runs of the default engine.
use incident_triage.Base.{String, none, List, [], ◌∷◌, ◌≡◌, refl, inl, inr}
use incident_triage.Floats.{exact, exact-IsOrdered}
use incident_triage.Correlation.Rules.{NewAlertContext, CorrelationCandidate}
use incident_triage.Correlation.Engine.{
  correlate, CorrelationEngine, default_correlation_engine, decide,
}
use incident_triage.Correlation.Engine.Best.{Chooses, decide-best}
use incident_triage.Correlation.Default.{decide-plain}

abbrev alert : NewAlertContext
alert = record {
  source = "prometheus";
  fingerprint = "f1";
  labels = ("team", "payments") ∷ [];
  service = "checkout";
  environment = "production";
  received_at = 100000000;
}

abbrev candidate : String → CorrelationCandidate
candidate service = record {
  incident_id = 7;
  correlation_key = "key-7";
  status = "INVESTIGATING";
  service = service;
  environment = "production";
  most_recent_alert_received_at = 40000000;
  most_recent_alert_labels = [];
  most_recent_alert_fingerprint = "f0";
}

abbrev candidates : List CorrelationCandidate
candidates = candidate "search" ∷ candidate "checkout" ∷ []

abbrev engine : CorrelationEngine exact
engine = default_correlation_engine exact 90 [] none

decide-best_example :
    Chooses exact exact-IsOrdered engine alert candidates (decide exact engine alert candidates)
decide-best_example = decide-best exact exact-IsOrdered engine alert candidates

decide-plain_example : (decide exact engine alert candidates).decision ≡ correlate
decide-plain_example =
    (decide-plain 90 [] none alert
        (record { no_region = refl; no_dependency = refl; no_alertname = refl }) candidates).1
      (inr (inl refl))
