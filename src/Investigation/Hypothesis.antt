-- ===== src/Investigation/Hypothesis.antt =====
-- packages/domain/investigation.py: hypotheses and `check_hypothesis_update`. A problem holds what
-- its text is printed from. Confidences lie in [0, 1] and are bit patterns of doubles. The free
-- texts of an update (missing evidence, rationale) are left out.
pub mod Acceptance
use incident_triage.Investigation.Problems.{problem_if}
use incident_triage.Base.{
  ℕ, String, Bool, true, false, not, ◌&&◌, ◌||◌, Option, none, some, List, [], ◌∷◌, ◌++◌, ◌==◌,
  string_eq, nat_eq, is_empty, is_some, to_set, difference, intersection, if◌then◌else◌,
}

pub data HypothesisStatus : Type 0 where
  active supported weakened rejected selected : HypothesisStatus

-- What the model may set.
pub data SettableStatus : Type 0 where
  active supported weakened rejected : SettableStatus

pub record HypothesisUpdate : Type 0 where
  pub key : String
  pub description : Option String
  pub cause_category : Option String
  pub component : Option String
  pub status : Option SettableStatus
  pub confidence : Option ℕ
  pub supporting_evidence_ids : List ℕ
  pub contradicting_evidence_ids : List ℕ

pub record HypothesisSnapshot : Type 0 where
  pub key : String
  pub description : String
  pub status : HypothesisStatus
  pub confidence : Option ℕ
  pub supporting : List ℕ
  pub contradicting : List ℕ
  pub cause_category : Option String
  pub component : Option String

pub data Problem : Type 0 where
  unknown_evidence : List ℕ → Problem
  evidence_on_both_sides : Problem
  description_required : Problem
  category_and_component_required : Problem
  category_fixed : Problem
  component_fixed : Problem
  cannot_change : HypothesisStatus → Problem
  rejection_without_evidence : Problem
  support_without_evidence : Problem

-- `not text`, for a text or `None`
abbrev pub is_blank : Option String → Bool
is_blank none = true
is_blank (some s) = s == ""

-- given, set before, and different
abbrev pub is_changed : Option String → Option String → Bool
is_changed (some given) (some fixed) = not (given == fixed)
is_changed _ _ = false

abbrev pub is_final : HypothesisStatus → Bool
is_final HypothesisStatus.rejected = true
is_final HypothesisStatus.selected = true
is_final _ = false

abbrev pub rejects : Option SettableStatus → Bool
rejects (some SettableStatus.rejected) = true
rejects _ = false

abbrev pub supports : Option SettableStatus → Bool
supports (some SettableStatus.supported) = true
supports _ = false

abbrev pub cited : HypothesisUpdate → List ℕ
cited update = to_set (update.supporting_evidence_ids ++ update.contradicting_evidence_ids)

abbrev pub supporting_of : Option HypothesisSnapshot → List ℕ
supporting_of none = []
supporting_of (some h) = h.supporting

abbrev pub contradicting_of : Option HypothesisSnapshot → List ℕ
contradicting_of none = []
contradicting_of (some h) = h.contradicting

-- The problems of creating a hypothesis, or of changing the one that exists.
abbrev pub existing_problems : HypothesisUpdate → Option HypothesisSnapshot → List Problem
existing_problems update none =
    problem_if (is_blank update.description) description_required
    ++ problem_if (not (is_some update.cause_category) || not (is_some update.component))
        category_and_component_required
existing_problems update (some existing) =
    problem_if (is_changed update.cause_category existing.cause_category) category_fixed
    ++ (problem_if (is_changed update.component existing.component) component_fixed
        ++ problem_if (is_final existing.status) (cannot_change existing.status))

unfoldable pub check_hypothesis_update :
    HypothesisUpdate → Option HypothesisSnapshot → List ℕ → List Problem
check_hypothesis_update update existing accessible_evidence =
    let unknown = difference (cited update) accessible_evidence in
    problem_if (not (is_empty unknown)) (unknown_evidence unknown)
    ++ (problem_if
          (not (
            is_empty
              (intersection update.supporting_evidence_ids update.contradicting_evidence_ids)))
          evidence_on_both_sides
        ++ (existing_problems update existing
            ++ (problem_if
                  (rejects update.status
                    && is_empty (update.contradicting_evidence_ids ++ contradicting_of existing))
                  rejection_without_evidence
                ++ problem_if
                    (supports update.status
                      && is_empty (update.supporting_evidence_ids ++ supporting_of existing))
                    support_without_evidence)))
