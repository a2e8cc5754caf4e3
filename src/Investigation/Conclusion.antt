-- ===== src/Investigation/Conclusion.antt =====
-- packages/domain/investigation.py: `evaluate_conclusion` and `ungrounded_ids`. The hypotheses are a
-- dictionary by key and the evidence types one by evidence. Sets are lists without repetitions,
-- whose order only the printed texts show.
pub mod Criteria
use incident_triage.Base.{
  ℕ, String, Bool, true, false, not, ◌&&◌, ◌||◌, Option, none, some, List, [], ◌∷◌, ◌++◌, ◌==◌,
  string_eq, nat_eq, is_empty, to_set, difference, intersection, if◌then◌else◌, lookup, length, ltb,
  leb, filter, map,
}
use incident_triage.Investigation.Hypothesis.{HypothesisStatus, HypothesisSnapshot}
use incident_triage.Investigation.Problems.{problem_if}

pub record StoppingCriteria : Type 0 where
  pub min_hypotheses_considered : ℕ
  pub min_supporting_evidence : ℕ
  pub min_supporting_evidence_types : ℕ
  pub min_confidence : ℕ

-- 0.6 as a double
unfoldable pub default_criteria : StoppingCriteria
default_criteria = record {
  min_hypotheses_considered = 2;
  min_supporting_evidence = 2;
  min_supporting_evidence_types = 2;
  min_confidence = 0x3FE3333333333333;
}

-- The evidence that each statement of a draft cites; the texts are left out.
pub record RcaDraft : Type 0 where
  pub incident_summary_evidence_ids : List ℕ
  pub impact_evidence_ids : List ℕ
  pub root_cause_evidence_ids : List ℕ
  pub affected_services : List (List ℕ)
  pub timeline : List (List ℕ)
  pub contributing_factors : List (List ℕ)
  -- the evidence of `contradicting_evidence`
  pub contradiction_notes : List ℕ

abbrev pub union_all : List (List ℕ) → List ℕ
union_all [] = []
union_all (ids ∷ rest) = ids ++ union_all rest

-- `RcaDraft.evidence_ids`
unfoldable pub evidence_ids : RcaDraft → List ℕ
evidence_ids rca =
    rca.incident_summary_evidence_ids
    ++ (rca.impact_evidence_ids
        ++ (rca.root_cause_evidence_ids
            ++ (union_all rca.affected_services
                ++ (union_all rca.timeline
                    ++ (union_all rca.contributing_factors ++ rca.contradiction_notes)))))

pub record FinalInvestigationResult : Type 0 where
  pub selected_hypothesis_key : String
  pub confidence : ℕ
  pub rca : RcaDraft

abbrev pub Hypotheses : Type 0
Hypotheses = List (String × HypothesisSnapshot)

pub data Unmet : Type 0 where
  no_such_hypothesis : String → Unmet
  not_supported : HypothesisStatus → Unmet
  too_little_evidence : ℕ → Unmet
  too_few_types : List String → Unmet
  contradicted : Unmet
  unaddressed : List ℕ → Unmet
  root_cause_uncited : Unmet
  too_few_hypotheses : ℕ → Unmet
  still_open : List String → Unmet
  low_confidence : ℕ → Unmet

abbrev pub is_supported : HypothesisStatus → Bool
is_supported HypothesisStatus.supported = true
is_supported _ = false

abbrev pub is_open : HypothesisStatus → Bool
is_open HypothesisStatus.active = true
is_open HypothesisStatus.supported = true
is_open _ = false

-- `[evidence_types[e] for e in es if e in evidence_types]`
abbrev pub types_of : List (ℕ × String) → List ℕ → List String
types_of evidence_types [] = []
types_of evidence_types (e ∷ es) =
    let rest = types_of evidence_types es in
    elim (lookup e evidence_types) [ none ↦ rest | some t ↦ t ∷ rest ]

abbrev pub is_competitor : HypothesisSnapshot → String × HypothesisSnapshot → Bool
is_competitor selected (k, h) = not (h.key == selected.key) && is_open h.status

abbrev snapshot_key : String × HypothesisSnapshot → String
snapshot_key (k, h) = h.key

-- The criteria after the look-up of the selected hypothesis.
unfoldable pub unmet_criteria :
    FinalInvestigationResult
    → HypothesisSnapshot
    → Hypotheses
    → List (ℕ × String)
    → StoppingCriteria
    → List Unmet
unmet_criteria result selected hypotheses evidence_types criteria =
    let supporting = to_set selected.supporting in
    let types = to_set (types_of evidence_types supporting) in
    let contradicting = to_set selected.contradicting in
    let missing = difference contradicting result.rca.contradiction_notes in
    let competitors = filter (is_competitor selected) hypotheses in
    problem_if (not (is_supported selected.status)) (not_supported selected.status)
    ++ (problem_if (ltb (length supporting) criteria.min_supporting_evidence)
          (too_little_evidence (length supporting))
        ++ (problem_if (ltb (length types) criteria.min_supporting_evidence_types)
              (too_few_types types)
            ++ (problem_if
                  (not (is_empty contradicting) && leb (length supporting) (length contradicting))
                  contradicted
                ++ (problem_if (not (is_empty missing)) (unaddressed missing)
                    ++ (problem_if
                          (is_empty (intersection result.rca.root_cause_evidence_ids supporting))
                          root_cause_uncited
                        ++ (problem_if (ltb (length hypotheses) criteria.min_hypotheses_considered)
                              (too_few_hypotheses (length hypotheses))
                            ++ (problem_if (not (is_empty competitors))
                                  (still_open (map snapshot_key competitors))
                                ++ problem_if (ltb result.confidence criteria.min_confidence)
                                    (low_confidence result.confidence))))))))

abbrev pub evaluate_selected :
    FinalInvestigationResult
    → Option HypothesisSnapshot
    → Hypotheses
    → List (ℕ × String)
    → StoppingCriteria
    → List Unmet
evaluate_selected result none hypotheses evidence_types criteria =
    no_such_hypothesis result.selected_hypothesis_key ∷ []
evaluate_selected result (some selected) hypotheses evidence_types criteria =
    unmet_criteria result selected hypotheses evidence_types criteria

unfoldable pub evaluate_conclusion :
    FinalInvestigationResult → Hypotheses → List (ℕ × String) → StoppingCriteria → List Unmet
evaluate_conclusion result hypotheses evidence_types criteria =
    evaluate_selected result (lookup result.selected_hypothesis_key hypotheses) hypotheses
      evidence_types criteria

abbrev pub ungrounded_ids : List ℕ → List ℕ → List ℕ
ungrounded_ids cited accessible = difference (to_set cited) accessible
