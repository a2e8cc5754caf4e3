-- ===== src/Correlation/Default.antt =====
-- packages/domain/correlation_engine.py: the default rules and threshold, in exact decimal
-- arithmetic.
use incident_triage.Base.{
  ℕ, ◌*◌, String, Bool, true, ◌&&◌, ◌≡◌, ◌↔◌, inl, inr, Option, none, List, arith, leb, ltb, ◌==◌,
  string_eq, lookup, Any, Any-middle, All-not-Any,
}
use incident_triage.Floats.{exact, exact-IsOrdered}
use incident_triage.Correlation.Rules.{
  NewAlertContext, CorrelationCandidate, evaluate, default_rules, present, distance,
}
use incident_triage.Correlation.Engine.{
  correlate, CorrelationEngine, default_correlation_engine, score_of, apply_rules, decide,
}
use incident_triage.Correlation.Engine.Best.{decide-best}

-- The three signals that do not come from a label.
abbrev pub is_same_place_and_time : ℕ → NewAlertContext → CorrelationCandidate → Bool
is_same_place_and_time window alert candidate =
    (alert.service == candidate.service)
    && (alert.environment == candidate.environment)
    && leb (distance alert.received_at candidate.most_recent_alert_received_at) (window * 1000000)

-- None of the labels that a default rule reads.
pub record HasNoSignalLabels (alert : NewAlertContext) : Type 0 where
  pub no_region : present (lookup "region" alert.labels) ≡ none
  pub no_dependency : present (lookup "dependency" alert.labels) ≡ none
  pub no_alertname : present (lookup "alertname" alert.labels) ≡ none

module _ (window : ℕ) (table : List (String × List String)) (key : Option String)
    (alert : NewAlertContext) (plain : HasNoSignalLabels alert) where
  abbrev engine : CorrelationEngine exact
  engine = default_correlation_engine exact window table key

  score_reaches :
      (c : CorrelationCandidate)
      → leb 6000 (score_of exact engine alert c) ≡ is_same_place_and_time window alert c
  unfolding default_correlation_engine score_of apply_rules default_rules evaluate
  score_reaches c = rw (plain.no_region, plain.no_dependency, plain.no_alertname) (ground arith)

  score_under :
      (c : CorrelationCandidate)
      → ltb (score_of exact engine alert c) 6000 ≡ true
      → ¬ (is_same_place_and_time window alert c ≡ true)
  score_under c low same = ground (arith, score_reaches c)

  -- Under the default rules and threshold, in exact decimal arithmetic: an alert with none of the
  -- labels that the rules read joins an incident exactly when some candidate has its service and
  -- its environment and its most recent alert within the window. The code has no decay beyond
  -- the window, which the docstring of TemporalProximityRule speaks of.
  pub decide-plain :
      (cs : List CorrelationCandidate)
      → ((decide exact engine alert cs).decision ≡ correlate)
        ↔ Any (λ c. is_same_place_and_time window alert c ≡ true) cs
  unfolding score_of default_correlation_engine
  decide-plain cs = elim (decide-best exact exact-IsOrdered engine alert cs) [
    | inl (b, (before, after, split, below, most), enough, eq) ↦
        (λ h. rw split (Any-middle _ before b after (rw (← score_reaches b) enough)), λ h. rw eq)
    | inr (under, new, none_matched, own_key) ↦
        (λ h. cc, λ h. absurd (All-not-Any _ _ cs score_under under h))
  ]
