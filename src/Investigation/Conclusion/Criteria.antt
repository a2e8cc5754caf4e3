-- ===== src/Investigation/Conclusion/Criteria.antt =====
-- packages/domain/investigation.py: when the criteria of a conclusion are met.
use incident_triage.Base.{
  ℕ, ◌≤◌, ◌<◌, ◌≡◌, ◌↔◌, refl, ◌⊎◌, String, Bool, true, false, not, ◌&&◌, Option, none, some, List,
  [], string_eq, nat_eq, is_empty, to_set, lookup, length, ltb, leb, All, Any, contains, subst,
  arith,
}
use incident_triage.Investigation.Hypothesis.{HypothesisStatus, HypothesisSnapshot}
use incident_triage.Investigation.Problems.{
  filter-is_empty, filter-Any, difference-is_empty, problem_if-append, problem_if-none, not-false,
  false-not,
}
use incident_triage.Investigation.Conclusion.{
  StoppingCriteria, FinalInvestigationResult, Hypotheses, is_supported, is_competitor, types_of,
  unmet_criteria, evaluate_conclusion, evaluate_selected,
}

ltb-false : (m n : ℕ) → ltb m n ≡ false → n ≤ m
ltb-false m n h = ground arith

false-ltb : (m n : ℕ) → n ≤ m → ltb m n ≡ false
false-ltb m n h = ground arith

supported_only :
    (s : HypothesisStatus) → not (is_supported s) ≡ false → s ≡ HypothesisStatus.supported
supported_only s h = ground arith

only_supported :
    (s : HypothesisStatus) → s ≡ HypothesisStatus.supported → not (is_supported s) ≡ false
only_supported s h = ground arith

outweighs_of : (b : Bool) (m n : ℕ) → (not b && leb m n) ≡ false → (b ≡ true) ⊎ (n < m)
outweighs_of b m n h = ground arith

of_outweighs : (b : Bool) (m n : ℕ) → (b ≡ true) ⊎ (n < m) → (not b && leb m n) ≡ false
of_outweighs b m n h = ground arith

-- What a conclusion rests on.
pub record IsMet (result : FinalInvestigationResult) (selected : HypothesisSnapshot)
    (hypotheses : Hypotheses) (evidence_types : List (ℕ × String)) (criteria : StoppingCriteria)
    : Type 0 where
  pub is_supported : selected.status ≡ HypothesisStatus.supported
  pub enough_evidence : criteria.min_supporting_evidence ≤ length (to_set selected.supporting)
  pub enough_types :
      criteria.min_supporting_evidence_types
      ≤ length (to_set (types_of evidence_types (to_set selected.supporting)))
  pub outweighs :
      (is_empty (to_set selected.contradicting) ≡ true)
      ⊎ (length (to_set selected.contradicting) < length (to_set selected.supporting))
  pub all_addressed :
      All (λ e. contains result.rca.contradiction_notes e ≡ true) (to_set selected.contradicting)
  pub cites_support :
      Any (λ e. contains (to_set selected.supporting) e ≡ true) result.rca.root_cause_evidence_ids
  pub enough_hypotheses : criteria.min_hypotheses_considered ≤ length hypotheses
  pub none_open : All (λ h. is_competitor selected h ≡ false) hypotheses
  pub confident : criteria.min_confidence ≤ result.confidence

module _ (result : FinalInvestigationResult) (selected : HypothesisSnapshot)
    (hypotheses : Hypotheses) (evidence_types : List (ℕ × String))
    (criteria : StoppingCriteria) where
  unmet_criteria-IsMet :
      unmet_criteria result selected hypotheses evidence_types criteria ≡ []
      → IsMet result selected hypotheses evidence_types criteria
  unfolding unmet_criteria
  unmet_criteria-IsMet h =
      let (a, ha) = (problem_if-append _ _ _).0 h in
      let (b, hb) = (problem_if-append _ _ _).0 ha in
      let (c, hc) = (problem_if-append _ _ _).0 hb in
      let (d, hd) = (problem_if-append _ _ _).0 hc in
      let (e, he) = (problem_if-append _ _ _).0 hd in
      let (f, hf) = (problem_if-append _ _ _).0 he in
      let (g, hg) = (problem_if-append _ _ _).0 hf in
      let (i, hi) = (problem_if-append _ _ _).0 hg in
      let j = (problem_if-none _ _).0 hi in
      record {
        is_supported = supported_only selected.status a;
        enough_evidence = ltb-false _ _ b;
        enough_types = ltb-false _ _ c;
        outweighs = outweighs_of _ _ _ d;
        all_addressed = (difference-is_empty _ _).0 (not-false _ e);
        cites_support = (filter-Any _ _).0 f;
        enough_hypotheses = ltb-false _ _ g;
        none_open = (filter-is_empty _ _).0 (not-false _ i);
        confident = ltb-false _ _ j;
      }

  IsMet-unmet_criteria :
      IsMet result selected hypotheses evidence_types criteria
      → unmet_criteria result selected hypotheses evidence_types criteria ≡ []
  unfolding unmet_criteria
  IsMet-unmet_criteria m = (problem_if-append _ _ _).1 (
    only_supported selected.status m.is_supported,
    (problem_if-append _ _ _).1 (
      false-ltb _ _ m.enough_evidence,
      (problem_if-append _ _ _).1 (
        false-ltb _ _ m.enough_types,
        (problem_if-append _ _ _).1 (
          of_outweighs _ _ _ m.outweighs,
          (problem_if-append _ _ _).1 (
            false-not _ ((difference-is_empty _ _).1 m.all_addressed),
            (problem_if-append _ _ _).1 (
              (filter-Any _ _).1 m.cites_support,
              (problem_if-append _ _ _).1 (
                false-ltb _ _ m.enough_hypotheses,
                (problem_if-append _ _ _).1 (
                  false-not _ ((filter-is_empty _ _).1 m.none_open),
                  (problem_if-none _ _).1 (false-ltb _ _ m.confident),
                ),
              ),
            ),
          ),
        ),
      ),
    ),
  )

evaluate_selected-IsMet :
    (result : FinalInvestigationResult) (found : Option HypothesisSnapshot)
    (hypotheses : Hypotheses) (evidence_types : List (ℕ × String)) (criteria : StoppingCriteria)
    → (evaluate_selected result found hypotheses evidence_types criteria ≡ []) ↔ (
        (selected : HypothesisSnapshot) × (found ≡ some selected)
        × IsMet result selected hypotheses evidence_types criteria)
evaluate_selected-IsMet result none hypotheses evidence_types criteria =
    (λ h. ground arith, λ (selected, e, m). ground arith)
evaluate_selected-IsMet result (some h) hypotheses evidence_types criteria = (
  λ e. (h, refl, unmet_criteria-IsMet result h hypotheses evidence_types criteria e),
  λ (selected, e, m).
      IsMet-unmet_criteria result h hypotheses evidence_types criteria
        (subst (λ s. IsMet result s hypotheses evidence_types criteria) (cc e) m),
)

-- No criterion is unmet exactly when the named hypothesis exists, is supported by enough evidence
-- of enough types, outweighs its contradicting evidence, all of which the report addresses, is
-- cited as the root cause, was considered among enough hypotheses of which no other is open, and
-- the confidence is high enough.
pub evaluate_conclusion-IsMet :
    (result : FinalInvestigationResult) (hypotheses : Hypotheses)
    (evidence_types : List (ℕ × String)) (criteria : StoppingCriteria)
    → (evaluate_conclusion result hypotheses evidence_types criteria ≡ []) ↔ (
        (selected : HypothesisSnapshot) × (lookup result.selected_hypothesis_key hypotheses
          ≡ some selected)
        × IsMet result selected hypotheses evidence_types criteria)
unfolding evaluate_conclusion
evaluate_conclusion-IsMet result hypotheses evidence_types criteria =
    evaluate_selected-IsMet result (lookup result.selected_hypothesis_key hypotheses) hypotheses
      evidence_types criteria
