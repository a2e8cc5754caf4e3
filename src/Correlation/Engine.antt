-- ===== src/Correlation/Engine.antt =====
-- packages/domain/correlation_engine.py: `CorrelationEngine`, the choice among the candidates.
pub mod Best
use incident_triage.Base.{
  ℕ, ◌-◌, ◌*◌, String, Bool, true, false, ◌||◌, not, Option, none, some, List, [], ◌∷◌, ◌++◌,
  if◌then◌else◌, is_some,
}
use incident_triage.Floats.{Floats}
use incident_triage.Correlation.Rules.{
  NewAlertContext, CorrelationCandidate, Signal, CorrelationRule, evaluate, default_rules, present,
  RuleResult,
}

pub data Verdict : Type 0 where
  correlate new_incident : Verdict

abbrev pub append_signal : List Signal → Option Signal → List Signal
append_signal signals none = signals
append_signal signals (some s) = signals ++ (s ∷ [])

-- `key or fingerprint`
abbrev pub key_or : Option String → String → String
key_or key fingerprint = elim (present key) [ none ↦ fingerprint | some k ↦ k ]

-- seconds back from a time in microseconds
unfoldable pub candidate_lookback_cutoff : ℕ → ℕ → ℕ
candidate_lookback_cutoff now lookback_seconds = now - lookback_seconds * 1000000

module _ (fl : Floats) where
  open fl use {Float, hundredths, add, lt, le}

  pub record CorrelationDecision : Type 0 where
    pub decision : Verdict
    pub score : Float
    pub matched_signals : List Signal
    pub matched_incident_id : Option ℕ
    pub correlation_key : String

  pub record CorrelationEngine : Type 0 where
    pub rules : List (CorrelationRule fl)
    pub threshold : Float
    pub new_incident_correlation_key : Option String

  -- The loop over the rules: the sum of the contributions and the signals that fired.
  unfoldable pub apply_rules :
      List (CorrelationRule fl)
      → NewAlertContext
      → CorrelationCandidate
      → Float
      → List Signal
      → Float × List Signal
  apply_rules [] alert candidate score signals = (score, signals)
  apply_rules (rule ∷ rules) alert candidate score signals =
      let result : RuleResult fl = evaluate fl rule alert candidate in
      apply_rules rules alert candidate (add score result.contribution)
        (append_signal signals result.signal)

  -- `min(score, 1.0)`
  abbrev pub cap_score : Float → Float
  cap_score score = if lt (hundredths 100) score then hundredths 100 else score

  -- What the loop's body computes of one candidate.
  unfoldable pub score_of : CorrelationEngine → NewAlertContext → CorrelationCandidate → Float
  score_of engine alert candidate =
      cap_score (apply_rules engine.rules alert candidate (hundredths 0) []).0

  unfoldable pub signals_of :
      CorrelationEngine → NewAlertContext → CorrelationCandidate → List Signal
  signals_of engine alert candidate = (apply_rules engine.rules alert candidate (hundredths 0) []).1

  -- The variables of the loop over the candidates.
  pub record Search : Type 0 where
    pub best_candidate : Option CorrelationCandidate
    pub best_score : Float
    pub best_signals : List Signal

  unfoldable pub consider :
      CorrelationEngine → NewAlertContext → Search → CorrelationCandidate → Search
  consider engine alert s candidate =
      let score = score_of engine alert candidate in
      if not (is_some s.best_candidate) || lt s.best_score score
      then record {
        best_candidate = some candidate;
        best_score = score;
        best_signals = signals_of engine alert candidate;
      }
      else s

  unfoldable pub search_candidates :
      CorrelationEngine → NewAlertContext → Search → List CorrelationCandidate → Search
  search_candidates engine alert s [] = s
  search_candidates engine alert s (candidate ∷ candidates) =
      search_candidates engine alert (consider engine alert s candidate) candidates

  -- The decision that no candidate is good enough.
  abbrev pub open_new : CorrelationEngine → NewAlertContext → Search → CorrelationDecision
  open_new engine alert s = record {
    decision = new_incident;
    score = s.best_score;
    matched_signals = s.best_signals;
    matched_incident_id = none;
    correlation_key = key_or engine.new_incident_correlation_key alert.fingerprint;
  }

  -- The code after the loop.
  unfoldable pub conclude : CorrelationEngine → NewAlertContext → Search → CorrelationDecision
  conclude engine alert s = elim s.best_candidate [
    | none ↦ open_new engine alert s
    | some best ↦
        if le engine.threshold s.best_score
        then record {
          decision = correlate;
          score = s.best_score;
          matched_signals = s.best_signals;
          matched_incident_id = some best.incident_id;
          correlation_key = best.correlation_key;
        }
        else open_new engine alert s
  ]

  unfoldable pub decide :
      CorrelationEngine → NewAlertContext → List CorrelationCandidate → CorrelationDecision
  unfolding conclude
  decide engine alert candidates = conclude engine alert (
      search_candidates engine alert
        (record { best_candidate = none; best_score = hundredths 0; best_signals = [] }) candidates)

  unfoldable pub default_correlation_engine :
      ℕ → List (String × List String) → Option String → CorrelationEngine
  default_correlation_engine temporal_window_seconds table key = record {
    rules = default_rules fl temporal_window_seconds table;
    threshold = hundredths 60;
    new_incident_correlation_key = key;
  }
