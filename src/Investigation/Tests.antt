-- ===== src/Investigation/Tests.antt =====
-- packages/domain/investigation.py: an update, a conclusion and a turn.
use incident_triage.Base.{
  map, Bool, ◌==◌, string_eq, ℕ, String, ◌≡◌, refl, none, some, List, [], ◌∷◌, string_eq, nat_eq,
  lookup,
}
use incident_triage.Investigation.Hypothesis.{
  HypothesisStatus, SettableStatus, HypothesisUpdate, HypothesisSnapshot, check_hypothesis_update,
}
use incident_triage.Investigation.Hypothesis.Acceptance.{
  IsAcceptable, check_hypothesis_update-IsAcceptable,
}
use incident_triage.Investigation.Conclusion.{
  FinalInvestigationResult, Hypotheses, default_criteria, unmet_criteria, evaluate_conclusion,
}
use incident_triage.Investigation.Conclusion.Criteria.{IsMet, evaluate_conclusion-IsMet}
use incident_triage.Investigation.Turn.{
  ModelAction, ArgumentModels, InvestigationDecision, interpret_turn,
}
use incident_triage.Investigation.Turn.Calls.{
  Call, accounted, count, call_of, requests_in, updates_in, HasEnding, first_ending,
}
use incident_triage.Investigation.Turn.Accounting.{interpret_turn-accounts}

abbrev pub update : HypothesisUpdate
update = record {
  key = "H1";
  description = some "a bad deployment";
  cause_category = some "deployment";
  component = some "checkout";
  status = some SettableStatus.supported;
  confidence = none;
  supporting_evidence_ids = 1 ∷ 2 ∷ [];
  contradicting_evidence_ids = [];
}

accepted : check_hypothesis_update update none (1 ∷ 2 ∷ 3 ∷ []) ≡ []
unfolding check_hypothesis_update
accepted = refl

check_hypothesis_update-IsAcceptable_example : IsAcceptable update none (1 ∷ 2 ∷ 3 ∷ [])
check_hypothesis_update-IsAcceptable_example =
    (check_hypothesis_update-IsAcceptable update none (1 ∷ 2 ∷ 3 ∷ [])).0 accepted

abbrev supported : HypothesisSnapshot
supported = record {
  key = "H1";
  description = "a bad deployment";
  status = HypothesisStatus.supported;
  confidence = none;
  supporting = 1 ∷ 2 ∷ [];
  contradicting = [];
  cause_category = some "deployment";
  component = some "checkout";
}

abbrev rejected : HypothesisSnapshot
rejected = record supported { key = "H2"; status = HypothesisStatus.rejected }

abbrev hypotheses : Hypotheses
hypotheses = ("H1", supported) ∷ ("H2", rejected) ∷ []

abbrev evidence_types : List (ℕ × String)
evidence_types = (1, "metrics") ∷ (2, "logs") ∷ []

abbrev pub result : FinalInvestigationResult
result = record {
  selected_hypothesis_key = "H1";
  confidence = 0x3FE999999999999A;
  rca = record {
    incident_summary_evidence_ids = 1 ∷ [];
    impact_evidence_ids = 2 ∷ [];
    root_cause_evidence_ids = 1 ∷ [];
    affected_services = (1 ∷ []) ∷ [];
    timeline = (2 ∷ []) ∷ [];
    contributing_factors = [];
    contradiction_notes = [];
  };
}

concludes : evaluate_conclusion result hypotheses evidence_types default_criteria ≡ []
unfolding evaluate_conclusion unmet_criteria default_criteria
concludes = refl

evaluate_conclusion-IsMet_example :
    (selected : HypothesisSnapshot) × (lookup "H1" hypotheses ≡ some selected)
    × IsMet result selected hypotheses evidence_types default_criteria
evaluate_conclusion-IsMet_example =
    (evaluate_conclusion-IsMet result hypotheses evidence_types default_criteria).0 concludes

abbrev models : ArgumentModels
models = record {
  batch = λ d. some (update ∷ []);
  result = λ d. some result;
  declaration = λ d. none;
}

abbrev actions : List ModelAction
actions =
    record { call_id = "a"; name = "query_metrics"; arguments = [] }
    ∷ record { call_id = "b"; name = "conclude_investigation"; arguments = [] }
    ∷ record { call_id = "c"; name = "conclude_investigation"; arguments = [] }
    ∷ []

abbrev decision : InvestigationDecision
decision = interpret_turn models actions ("query_metrics" ∷ [])

-- the calls that have the id "c"
abbrev is_last : Call → Bool
is_last c = c.0 == "c"

interpret_turn-accounts_example :
    (accounted is_last decision ≡ count is_last (map call_of actions))
    × (decision.tool_requests ≡ requests_in ("query_metrics" ∷ []) actions)
    × (decision.hypothesis_updates ≡ updates_in models actions)
    × HasEnding (first_ending models actions) decision
interpret_turn-accounts_example =
    interpret_turn-accounts models actions ("query_metrics" ∷ []) is_last
