-- ===== src/Investigation/Core/Completion.antt =====
-- packages/incident/investigations.py: `complete` accepts a conclusion that nothing speaks against,
-- and leaves one report on the hypothesis that it selects.
use incident_triage.Base.{
  ℕ, ◌≡◌, refl, inl, inr, String, true, some, List, [], ◌∷◌, ◌++◌, map, nat_eq, string_eq, ◌==◌,
  Bool-cases, Option-cases, arith, All, ap, All-to_set, to_set-All, ◌↔◌, is_empty, ◌∙◌, sym, subst,
  lookup,
}
use incident_triage.Errors.{ok, After, After-bind}
use incident_triage.Incident.Row.{IncidentRow}
use incident_triage.Investigation.Hypothesis.{HypothesisSnapshot}
use incident_triage.Investigation.Problems.{difference-is_empty}
use incident_triage.Investigation.Conclusion.{
  StoppingCriteria, FinalInvestigationResult, evaluate_conclusion, ungrounded_ids, evidence_ids,
}
use incident_triage.Investigation.Conclusion.Criteria.{IsMet, evaluate_conclusion-IsMet}
use incident_triage.Investigation.Rows.{InvestigationStatus, StepKind, HypothesisRow, Db}
use incident_triage.Investigation.Core.{accessible_evidence}
use incident_triage.Investigation.Core.Updates.{find_hypothesis, snapshot, snapshots, snapshot_of}
use incident_triage.Investigation.Core.Updates.Keeping.{
  IsGrounded, put_hypothesis-All, find_hypothesis-All, find-put_hypothesis,
}
use incident_triage.Investigation.Core.Outcome.{
  complete, complete_with, accept, Objection, unmet, objections, ungrounded_objection,
  evidence_types, choose, report_on, reject_conclusion,
}
use incident_triage.Investigation.Core.Soundness.{In, IsSound}
use incident_triage.Investigation.Core.Commands.{
  After-fenced, unfinished_reports, append_step-IsSound, move_incident-IsSound,
}

key_sym : (a b : String) → (a == b) ≡ (b == a)
key_sym a b = ground (arith, string_eq.beq_iff a b, string_eq.beq_iff b a)

-- The snapshots are those of the rows.
lookup-snapshots :
    (key : String) (rows : List HypothesisRow)
    → lookup key (snapshots rows) ≡ snapshot_of (find_hypothesis key rows)
lookup-snapshots key [] = refl
lookup-snapshots key (h ∷ rows) = elim (Bool-cases (h.key == key)) [
  | inl here ↦ rw (key_sym key h.key, here) refl
  | inr later ↦ rw (key_sym key h.key, later, lookup-snapshots key rows) refl
]

append_empty {ℓ} : {A : Type ℓ} (xs ys : List A) → (xs ++ ys) ≡ [] → (xs ≡ []) × (ys ≡ [])
append_empty [] ys h = (refl, h)
append_empty (x ∷ xs) ys h = cc

map_empty {ℓ κ} : {A : Type ℓ} {B : Type κ} (f : A → B) (xs : List A) → map f xs ≡ [] → xs ≡ []
map_empty f [] h = refl
map_empty f (x ∷ xs) h = cc

ungrounded_objection_empty : (ids : List ℕ) → ungrounded_objection ids ≡ [] → is_empty ids ≡ true
ungrounded_objection_empty [] h = refl
ungrounded_objection_empty (e ∷ ids) h = cc

empty_list {ℓ} : {A : Type ℓ} (xs : List A) → is_empty xs ≡ true → xs ≡ []
empty_list [] h = refl
empty_list (x ∷ xs) h = cc

-- A conclusion without objections cites what was shown, and meets the criteria.
pub record IsUnopposed (criteria : StoppingCriteria) (result : FinalInvestigationResult)
    (selected : HypothesisRow) (db : Db) : Type 0 where
  pub cited : All (In (accessible_evidence db)) (evidence_ids result.rca)
  pub found : find_hypothesis result.selected_hypothesis_key db.hypotheses ≡ some selected
  pub met :
      IsMet result
        (snapshot selected)
        (snapshots db.hypotheses)
        (evidence_types db.evidence_refs)
        criteria

module _ (criteria : StoppingCriteria) (result : FinalInvestigationResult) (db : Db) where
  snapshot_found :
      (s : HypothesisSnapshot)
      → lookup result.selected_hypothesis_key (snapshots db.hypotheses) ≡ some s
      → (h : HypothesisRow) × (find_hypothesis result.selected_hypothesis_key db.hypotheses
          ≡ some h)
        × (snapshot h ≡ s)
  snapshot_found s e =
      let same = sym (lookup-snapshots result.selected_hypothesis_key db.hypotheses) ∙ e in
      elim (Option-cases (find_hypothesis result.selected_hypothesis_key db.hypotheses)) [
        | inl absent ↦ cc (rw absent at same)
        | inr (h, found) ↦ (h, found, cc (rw found at same))
      ]

  objections-found :
      objections criteria result db ≡ [] → (h : HypothesisRow) × IsUnopposed criteria result h db
  unfolding objections
  objections-found none_left =
      let (a, b) = append_empty (ungrounded_objection _) _ none_left in
      let (s, found, met) =
        (evaluate_conclusion-IsMet result (snapshots db.hypotheses)
            (evidence_types db.evidence_refs) criteria).0
          (map_empty unmet _ b) in
      let (h, here, same) = snapshot_found s found in
      (
        h,
        record {
          cited =
              All-to_set (In (accessible_evidence db)) _
                ((difference-is_empty _ _).0 (ungrounded_objection_empty _ a));
          found = here;
          met =
              subst
                (λ t.
                  IsMet result t (snapshots db.hypotheses) (evidence_types db.evidence_refs)
                    criteria)
                (sym same) met;
        },
      )

  unopposed_objections :
      (h : HypothesisRow) → IsUnopposed criteria result h db → objections criteria result db ≡ []
  unfolding objections
  unopposed_objections h u =
      let grounded : is_empty (ungrounded_ids (evidence_ids result.rca) (accessible_evidence db))
          ≡ true =
        (difference-is_empty _ _).1 (to_set-All (In (accessible_evidence db)) _ u.cited) in
      let met : evaluate_conclusion result (snapshots db.hypotheses)
            (evidence_types db.evidence_refs) criteria
          ≡ [] =
        (evaluate_conclusion-IsMet result (snapshots db.hypotheses)
            (evidence_types db.evidence_refs) criteria).1
          (
            snapshot h,
            lookup-snapshots result.selected_hypothesis_key db.hypotheses ∙ ap snapshot_of u.found,
            u.met,
          ) in
      rw (empty_list _ grounded, met) refl

  -- `complete` has no objection to a conclusion exactly when all evidence that its report cites is
  -- accessible, and the hypothesis that it selects is found and meets the stopping criteria.
  pub objections-IsUnopposed :
      (objections criteria result db ≡ [])
      ↔ ((h : HypothesisRow) × IsUnopposed criteria result h db)
  objections-IsUnopposed = (objections-found, λ (h, u). unopposed_objections h u)

  accept-IsSound :
      (stored : IncidentRow) (decimal : ℕ → ℕ) (iteration : ℕ) (call_id : String) (now : ℕ)
      (h : HypothesisRow)
      → IsUnopposed criteria result h db
      → db.row.status ≡ InvestigationStatus.investigating
      → IsSound criteria db
      → After (IsSound criteria) (accept stored decimal iteration call_id result now (some h) db)
  unfolding accept accessible_evidence
  accept-IsSound stored decimal iteration call_id now h u runs s =
      After-bind (IsSound criteria) (IsSound criteria) _ _
        (λ moved t. record { numbered = t.numbered; grounded = t.grounded; settled = t.settled })
        (move_incident-IsSound criteria stored now _ _ _ (
          append_step-IsSound criteria now StepKind.outcome iteration (some call_id) [] _ (record {
            numbered = s.numbered;
            grounded =
                put_hypothesis-All (IsGrounded (In (accessible_evidence db)))
                  (choose decimal result now h) db.hypotheses
                  (find_hypothesis-All (IsGrounded (In (accessible_evidence db))) _ db.hypotheses
                    s.grounded u.found)
                  s.grounded;
            settled = (
              refl,
              record {
                report = report_on result now h;
                only =
                    ap (λ reports. report_on result now h ∷ reports)
                      (unfinished_reports criteria db.row.status _ _ _ _ (rw runs refl) s.settled);
                cited = u.cited;
                selected = choose decimal result now h;
                found = find-put_hypothesis (choose decimal result now h) db.hypotheses;
                status = refl;
                enough = u.met.enough_evidence;
              },
            );
          })))

  complete_with-IsSound :
      (stored : IncidentRow) (decimal : ℕ → ℕ) (iteration : ℕ) (call_id : String) (now : ℕ)
      (os : List Objection)
      → objections criteria result db ≡ os
      → db.row.status ≡ InvestigationStatus.investigating
      → IsSound criteria db
      → After
          (λ out. IsSound criteria out.0)
          (complete_with stored decimal iteration call_id result now os db)
  unfolding complete_with reject_conclusion
  complete_with-IsSound stored decimal iteration call_id now (o ∷ os) e runs s =
      append_step-IsSound criteria now StepKind.conclusion_rejected iteration (some call_id) [] db s
  complete_with-IsSound stored decimal iteration call_id now [] e runs s =
      let (h, u) = objections-found e in
      After-bind (IsSound criteria) (λ (out : Db × List Objection). IsSound criteria out.0)
        (accept stored decimal iteration call_id result now
          (find_hypothesis result.selected_hypothesis_key db.hypotheses) db)
        (λ done. ok (done, [])) (λ done t. t)
        (rw u.found (accept-IsSound stored decimal iteration call_id now h u runs s))

pub complete-IsSound :
    (criteria : StoppingCriteria) (stored : IncidentRow) (decimal : ℕ → ℕ) (owner : String)
    (iteration : ℕ) (call_id : String) (result : FinalInvestigationResult) (now : ℕ) (db : Db)
    → IsSound criteria db
    → After
        (λ out. IsSound criteria out.0)
        (complete stored criteria decimal owner iteration call_id result now db)
unfolding complete
complete-IsSound criteria stored decimal owner iteration call_id result now db s =
    After-fenced (λ out. IsSound criteria out.0) owner db _
      (λ runs own.
        complete_with-IsSound criteria result db stored decimal iteration call_id now _ refl runs s)
