-- ===== src/Investigation/Core/Progression.antt =====
-- packages/incident/investigations.py: the statuses that an investigation goes through.
use incident_triage.Base.{
  ℕ, ◌≡◌, refl, String, Bool, true, false, not, ◌&&◌, Option, none, some, List, [], ◌∷◌, arith,
  subst, ◌==◌, option_eq, string_eq, Option-cases, inl, inr,
}
use incident_triage.Errors.{ok, After, After-if, After-bind}
use incident_triage.Incident.Status.{IncidentStatus, incident_status_eq}
use incident_triage.Incident.Row.{IncidentRow, transition_incident_status}
use incident_triage.Investigation.Hypothesis.{HypothesisUpdate}
use incident_triage.Investigation.Conclusion.{StoppingCriteria, FinalInvestigationResult}
use incident_triage.Investigation.Rows.{
  InvestigationStatus, created, investigating, completed, failed, escalated, is_terminal,
  HypothesisRow, Change, Db,
}
use incident_triage.Investigation.Core.{
  claim, release, record_step, append_step, StepInput, lease_is_live,
}
use incident_triage.Investigation.Core.Updates.{apply_hypothesis_updates, find_hypothesis}
use incident_triage.Investigation.Core.Outcome.{
  complete, complete_with, accept, reject_conclusion, move_incident, escalate, Ending, inconclusive,
  technical_failure, ending_status, Objection, objections,
}
use incident_triage.Investigation.Core.Commands.{After-fenced}
use incident_triage.Investigation.Core.Reachable.{
  Step, Reach, claimed, released, recorded, updated, concluded, given_up, registered,
  incident_changed, here, next,
}

-- The life of an investigation: it is created, then under way, and ends in one of three ways.
abbrev pub may_become : InvestigationStatus → InvestigationStatus → Bool
may_become created s = true
may_become investigating created = false
may_become investigating s = true
may_become completed completed = true
may_become failed failed = true
may_become escalated escalated = true
may_become s t = false

may_become_refl : (s : InvestigationStatus) → may_become s s ≡ true
may_become_refl s = ground arith

may_become_trans :
    (r s t : InvestigationStatus)
    → may_become r s ≡ true
    → may_become s t ≡ true
    → may_become r t ≡ true
may_become_trans r s t p q = ground (arith, p, q)

taken : (s : InvestigationStatus) → is_terminal s ≡ false → may_become s investigating ≡ true
taken s h = ground (arith, h)

abbrev IsNext : Db → Db → Type 0
IsNext db db' = may_become db.row.status db'.row.status ≡ true

claim-IsNext :
    (owner : String) (lease now : ℕ) (db : Db)
    → After (λ out. IsNext db out.0) (claim owner lease now db)
unfolding claim
claim-IsNext owner lease now db =
    After-if (λ out. IsNext db out.0) (is_terminal db.row.status) _ _
      (λ ended. may_become_refl db.row.status)
      (λ runs.
        After-if (λ out. IsNext db out.0)
          (lease_is_live now db.row && not (db.row.lease_owner == some owner)) _ _
          (λ live. may_become_refl db.row.status) (λ free. taken db.row.status runs))

release-IsNext : (owner : String) (now : ℕ) (db : Db) → After (IsNext db) (release owner now db)
unfolding release
release-IsNext owner now db =
    After-if (IsNext db) (db.row.lease_owner == some owner) _ _
      (λ own. may_become_refl db.row.status) (λ other. may_become_refl db.row.status)

record_step-IsNext :
    (owner : String) (input : StepInput) (lease now : ℕ) (db : Db)
    → After (IsNext db) (record_step owner input lease now db)
unfolding record_step append_step
record_step-IsNext owner input lease now db =
    After-fenced (IsNext db) owner db _ (λ runs own. may_become_refl db.row.status)

apply_hypothesis_updates-IsNext :
    (decimal : ℕ → ℕ) (owner : String) (iteration : ℕ) (call_id : String)
    (updates : List HypothesisUpdate) (now : ℕ) (db : Db)
    → After
        (λ out. IsNext db out.0)
        (apply_hypothesis_updates decimal owner iteration call_id updates now db)
unfolding apply_hypothesis_updates append_step
apply_hypothesis_updates-IsNext decimal owner iteration call_id updates now db =
    After-fenced (λ out. IsNext db out.0) owner db _ (λ runs own. may_become_refl db.row.status)

-- The incident's move leaves the investigation's status.
move_incident-keeps :
    (stored : IncidentRow) (now : ℕ) (to_status : IncidentStatus) (reason : Change)
    (status : InvestigationStatus) (db : Db)
    → may_become status db.row.status ≡ true
    → After
        (λ (d : Db). may_become status d.row.status ≡ true)
        (move_incident stored now to_status reason db)
unfolding move_incident
move_incident-keeps stored now to_status reason status db h =
    After-if (λ (d : Db). may_become status d.row.status ≡ true)
      (db.incident.status == IncidentStatus.investigating) _ _
      (λ under_way.
        elim (Option-cases (transition_incident_status stored db.incident to_status now)) [
          | inl lost ↦ rw (lost, After) tt
          | inr (incident, moved) ↦ rw (moved, After) h
        ])
      (λ left. h)

from_investigating :
    (s t : InvestigationStatus)
    → s ≡ investigating
    → may_become investigating t ≡ true
    → may_become s t ≡ true
from_investigating s t e h = rw e h

complete-IsNext :
    (stored : IncidentRow) (criteria : StoppingCriteria) (decimal : ℕ → ℕ) (owner : String)
    (iteration : ℕ) (call_id : String) (result : FinalInvestigationResult) (now : ℕ) (db : Db)
    → After
        (λ out. IsNext db out.0)
        (complete stored criteria decimal owner iteration call_id result now db)
unfolding complete complete_with reject_conclusion append_step accept
complete-IsNext stored criteria decimal owner iteration call_id result now db =
    After-fenced (λ out. IsNext db out.0) owner db _
      (λ runs own.
        verdict (objections criteria result db)
          (find_hypothesis result.selected_hypothesis_key db.hypotheses) runs)
  where
    accepted :
        (selected : Option HypothesisRow)
        → db.row.status ≡ investigating
        → After (IsNext db) (accept stored decimal iteration call_id result now selected db)
    accepted none runs = tt
    accepted (some h) runs =
        After-bind (IsNext db) (IsNext db) _ _ (λ moved m. m)
          (move_incident-keeps stored now _ _ db.row.status _
            (from_investigating db.row.status completed runs refl))

    verdict :
        (os : List Objection) (selected : Option HypothesisRow)
        → db.row.status ≡ investigating
        → After
            (λ out. IsNext db out.0)
            (complete_with stored decimal iteration call_id result now os db)
    verdict (o ∷ os) selected runs = may_become_refl db.row.status
    verdict [] selected runs =
        After-bind (IsNext db) (λ (out : Db × List Objection). IsNext db out.0)
          (accept stored decimal iteration call_id result now
            (find_hypothesis result.selected_hypothesis_key db.hypotheses) db)
          (λ done. ok (done, [])) (λ done m. m)
          (accepted (find_hypothesis result.selected_hypothesis_key db.hypotheses) runs)

escalate-IsNext :
    (stored : IncidentRow) (owner : String) (iteration : ℕ) (ending : Ending) (reason_code : String)
    (call_id : Option String) (now : ℕ) (db : Db)
    → After (IsNext db) (escalate stored owner iteration ending reason_code call_id now db)
unfolding escalate append_step
escalate-IsNext stored owner iteration ending reason_code call_id now db =
    After-fenced (IsNext db) owner db _ (λ runs own.
      After-bind (IsNext db) (IsNext db) _ _ (λ moved m. m)
        (move_incident-keeps stored now _ _ db.row.status _
          (from_investigating db.row.status (ending_status ending) runs (ends ending))))
  where
    ends : (e : Ending) → may_become investigating (ending_status e) ≡ true
    ends inconclusive = refl
    ends technical_failure = refl

module _ (criteria : StoppingCriteria) (decimal : ℕ → ℕ) where
  Step-IsNext : {db db' : Db} → Step criteria decimal db db' → IsNext db db'
  Step-IsNext (claimed owner lease now db db' got e) =
      subst (After (λ out. IsNext db out.0)) e (claim-IsNext owner lease now db)
  Step-IsNext (released owner now db db' e) =
      subst (After (IsNext db)) e (release-IsNext owner now db)
  Step-IsNext (recorded owner input lease now db db' e) =
      subst (After (IsNext db)) e (record_step-IsNext owner input lease now db)
  Step-IsNext (updated owner iteration call_id updates now db db' outcome e) =
      subst (After (λ out. IsNext db out.0)) e
        (apply_hypothesis_updates-IsNext decimal owner iteration call_id updates now db)
  Step-IsNext (concluded stored owner iteration call_id result now db db' against e) =
      subst (After (λ out. IsNext db out.0)) e
        (complete-IsNext stored criteria decimal owner iteration call_id result now db)
  Step-IsNext (given_up stored owner iteration ending reason_code call_id now db db' e) =
      subst (After (IsNext db)) e
        (escalate-IsNext stored owner iteration ending reason_code call_id now db)
  Step-IsNext (registered r db) = may_become_refl db.row.status
  Step-IsNext (incident_changed incident db) = may_become_refl db.row.status

  -- Over any sequence of commands, the status of an investigation changes only as the abstract
  -- life of an investigation allows: what was created may get under way, what is under way may be
  -- completed, fail or be escalated, and what has ended stays as it ended.
  pub Reach-may_become :
      {db db' : Db} → Reach criteria decimal db db' → may_become db.row.status db'.row.status ≡ true
  Reach-may_become {db} here = may_become_refl db.row.status
  Reach-may_become {db} {db'} (next {db' = mid} r step) =
      may_become_trans db.row.status mid.row.status db'.row.status (Reach-may_become r)
        (Step-IsNext step)
