-- ===== src/Investigation/Core/Reachable.antt =====
-- packages/incident/investigations.py: an investigation over any sequence of commands by any
-- workers, while others change its incident and register evidence.
use incident_triage.Base.{ℕ, ◌≡◌, String, Bool, Option, List, ◌∷◌, subst}
use incident_triage.Errors.{ok, After}
use incident_triage.Incident.Row.{IncidentRow}
use incident_triage.Investigation.Hypothesis.{HypothesisUpdate}
use incident_triage.Investigation.Conclusion.{StoppingCriteria, FinalInvestigationResult}
use incident_triage.Investigation.Rows.{EvidenceRefRow, Db}
use incident_triage.Investigation.Core.{claim, release, record_step, StepInput, accessible_evidence}
use incident_triage.Investigation.Core.Updates.{Progress, apply_hypothesis_updates}
use incident_triage.Investigation.Core.Outcome.{complete, escalate, Ending, Objection}
use incident_triage.Investigation.Core.Soundness.{IsSound}
use incident_triage.Investigation.Core.Commands.{
  claim-IsSound, release-IsSound, record_step-IsSound, apply_hypothesis_updates-IsSound,
  escalate-IsSound, register-IsSound,
}
use incident_triage.Investigation.Core.Completion.{complete-IsSound}

-- A command that commits, or a change by others.
module _ (criteria : StoppingCriteria) (decimal : ℕ → ℕ) where
  pub data Step : Db → Db → Type 0 where
    claimed :
        (owner : String) (lease now : ℕ) (db db' : Db) (taken : Bool)
        → claim owner lease now db ≡ ok (db', taken)
        → Step db db'
    released :
        (owner : String) (now : ℕ) (db db' : Db) → release owner now db ≡ ok db' → Step db db'
    recorded :
        (owner : String) (input : StepInput) (lease now : ℕ) (db db' : Db)
        → record_step owner input lease now db ≡ ok db'
        → Step db db'
    updated :
        (owner : String) (iteration : ℕ) (call_id : String) (updates : List HypothesisUpdate)
        (now : ℕ) (db db' : Db) (outcome : Progress)
        → apply_hypothesis_updates decimal owner iteration call_id updates now db
          ≡ ok (db', outcome)
        → Step db db'
    concluded :
        (stored : IncidentRow) (owner : String) (iteration : ℕ) (call_id : String)
        (result : FinalInvestigationResult) (now : ℕ) (db db' : Db) (against : List Objection)
        → complete stored criteria decimal owner iteration call_id result now db ≡ ok (db', against)
        → Step db db'
    given_up :
        (stored : IncidentRow) (owner : String) (iteration : ℕ) (ending : Ending)
        (reason_code : String) (call_id : Option String) (now : ℕ) (db db' : Db)
        → escalate stored owner iteration ending reason_code call_id now db ≡ ok db'
        → Step db db'
    registered :
        (r : EvidenceRefRow) (db : Db)
        → Step db (record db { evidence_refs = r ∷ db.evidence_refs })
    incident_changed :
        (incident : IncidentRow) (db : Db) → Step db (record db { incident = incident })

  pub data Reach (db : Db) : Db → Type 0 where
    here : Reach db db
    next : {db' db'' : Db} → Reach db db' → Step db' db'' → Reach db db''

  Step-IsSound : {db db' : Db} → Step db db' → IsSound criteria db → IsSound criteria db'
  unfolding accessible_evidence
  Step-IsSound (claimed owner lease now db db' taken e) s =
      subst (After (λ out. IsSound criteria out.0)) e (claim-IsSound criteria owner lease now db s)
  Step-IsSound (released owner now db db' e) s =
      subst (After (IsSound criteria)) e (release-IsSound criteria owner now db s)
  Step-IsSound (recorded owner input lease now db db' e) s =
      subst (After (IsSound criteria)) e (record_step-IsSound criteria owner input lease now db s)
  Step-IsSound (updated owner iteration call_id updates now db db' outcome e) s =
      subst (After (λ out. IsSound criteria out.0)) e
        (apply_hypothesis_updates-IsSound criteria decimal owner iteration call_id updates now db s)
  Step-IsSound (concluded stored owner iteration call_id result now db db' against e) s =
      subst (After (λ out. IsSound criteria out.0)) e
        (complete-IsSound criteria stored decimal owner iteration call_id result now db s)
  Step-IsSound (given_up stored owner iteration ending reason_code call_id now db db' e) s =
      subst (After (IsSound criteria)) e
        (escalate-IsSound criteria stored owner iteration ending reason_code call_id now db s)
  Step-IsSound (registered r db) s = register-IsSound criteria r db s
  Step-IsSound (incident_changed incident db) s = record {
    numbered = s.numbered;
    grounded = s.grounded;
    settled = s.settled;
  }

  -- An investigation stays sound over any sequence of commands, refused ones included, with
  -- evidence registered and the incident changed in between: its steps are numbered from 1 without
  -- gaps; each hypothesis links only evidence that a context or tool step showed and that is
  -- registered for the incident, none twice; it has no report before it completes, and when it has
  -- completed no owner and exactly one report, which cites only such evidence and names a selected
  -- hypothesis with the required number of supporting evidence.
  pub Reach-IsSound : {db db' : Db} → Reach db db' → IsSound criteria db → IsSound criteria db'
  Reach-IsSound here s = s
  Reach-IsSound (next r step) s = Step-IsSound step (Reach-IsSound r s)
