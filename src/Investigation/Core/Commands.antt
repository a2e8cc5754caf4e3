-- ===== src/Investigation/Core/Commands.antt =====
-- packages/incident/investigations.py: each command of an investigation keeps it sound.
use incident_triage.Base.{
  ℕ, ◌≡◌, refl, inl, inr, String, true, false, not, ◌&&◌, Option, none, some, List, [], ◌∷◌, nat_eq,
  string_eq, option_eq, ◌==◌, Bool-cases, Option-cases, &&-true, ==→eq, arith,
}
use incident_triage.Errors.{Result, ◌>>◌, raise_if, After, After-if, After-bind, lease_lost}
use incident_triage.Incident.Status.{IncidentStatus, incident_status_eq}
use incident_triage.Incident.Row.{IncidentRow, transition_incident_status}
use incident_triage.Investigation.Hypothesis.{HypothesisUpdate}
use incident_triage.Investigation.Conclusion.{StoppingCriteria}
use incident_triage.Investigation.Rows.{
  InvestigationStatus, StepKind, HypothesisRow, EvidenceRefRow, RcaReportRow, is_terminal, Change,
  InvestigationRow, Db,
}
use incident_triage.Investigation.Core.{
  claim, release, record_step, StepInput, is_investigating, holds, lease_is_live, append_step,
  accessible_evidence,
}
use incident_triage.Investigation.Core.Updates.{apply_hypothesis_updates}
use incident_triage.Investigation.Core.Updates.Keeping.{apply_updates-IsGrounded}
use incident_triage.Investigation.Core.Outcome.{
  move_incident, escalate, Ending, ending_status, inconclusive, technical_failure,
}
use incident_triage.Investigation.Core.Soundness.{
  IsSettled, IsSound, IsGrounded-grow, IsSettled-grow, append_step-grow, register-grow,
  append_step-IsNumbered,
}

-- The status and owner that a worker holding the lease finds.
pub holds_lem :
    (owner : String) (row : InvestigationRow)
    → holds owner row ≡ true
    → (row.status ≡ InvestigationStatus.investigating) × (row.lease_owner ≡ some owner)
holds_lem owner row h =
    let (a, b) = &&-true (is_investigating row.status) (row.lease_owner == some owner) h in
    (of_test row.status a, ==→eq row.lease_owner (some owner) b)
  where
    of_test :
        (s : InvestigationStatus)
        → is_investigating s ≡ true
        → s ≡ InvestigationStatus.investigating
    of_test s e = ground (arith, e)

-- A command's outcome, which is `lease_lost` unless the caller holds the lease.
pub After-fenced {ℓ κ} :
    {A : Type ℓ} (P : A → Type κ) (owner : String) (db : Db) (r : Result A)
    → (db.row.status ≡ InvestigationStatus.investigating
        → db.row.lease_owner ≡ some owner
        → After P r)
    → After P (raise_if (not (holds owner db.row)) lease_lost >> r)
After-fenced P owner db r f = elim (Bool-cases (holds owner db.row)) [
  | inl held ↦ let (s, o) = holds_lem owner db.row held in rw (held, After) (f s o)
  | inr lost ↦ rw (lost, After) tt
]

module _ (criteria : StoppingCriteria) where
  pub unfinished_reports :
      (status : InvestigationStatus) (owner : Option String) (accessible : List ℕ)
      (rows : List HypothesisRow) (reports : List RcaReportRow)
      → is_terminal status ≡ false
      → IsSettled criteria status owner accessible rows reports
      → reports ≡ []
  unfinished_reports InvestigationStatus.created owner accessible rows reports h s = s
  unfinished_reports InvestigationStatus.investigating owner accessible rows reports h s = s
  unfinished_reports InvestigationStatus.completed owner accessible rows reports h s = cc
  unfinished_reports InvestigationStatus.failed owner accessible rows reports h s = cc
  unfinished_reports InvestigationStatus.escalated owner accessible rows reports h s = cc

  pub claim-IsSound :
      (owner : String) (lease now : ℕ) (db : Db)
      → IsSound criteria db
      → After (λ out. IsSound criteria out.0) (claim owner lease now db)
  unfolding claim accessible_evidence
  claim-IsSound owner lease now db s =
      After-if (λ out. IsSound criteria out.0) (is_terminal db.row.status) _ _ (λ ended. s)
        (λ runs.
          After-if (λ out. IsSound criteria out.0)
            (lease_is_live now db.row && not (db.row.lease_owner == some owner)) _ _ (λ live. s)
            (λ free. record {
              numbered = s.numbered;
              grounded = s.grounded;
              settled = unfinished_reports db.row.status _ _ _ _ runs s.settled;
            }))

  pub release-IsSound :
      (owner : String) (now : ℕ) (db : Db)
      → IsSound criteria db
      → After (IsSound criteria) (release owner now db)
  unfolding release accessible_evidence
  release-IsSound owner now db s = elim (Bool-cases (db.row.lease_owner == some owner)) [
    | inl own ↦
        rw (own, After)
          (record { numbered = s.numbered; grounded = s.grounded; settled = s.settled })
    | inr other ↦ rw (other, After) s
  ]

  -- A step that the lease holder appends.
  pub append_step-IsSound :
      (now : ℕ) (kind : StepKind) (iteration : ℕ) (call_id : Option String) (ids : List ℕ) (db : Db)
      → IsSound criteria db
      → IsSound criteria (append_step now kind iteration call_id ids db)
  append_step-IsSound now kind iteration call_id ids db s =
      let wider = append_step-grow now kind iteration call_id ids db in
      record {
        numbered = append_step-IsNumbered now kind iteration call_id ids db s.numbered;
        grounded = (unfold append_step in IsGrounded-grow _ _ db.hypotheses wider s.grounded);
        settled =
            (unfold append_step in
              IsSettled-grow criteria db.row.status db.row.lease_owner _ _ db.hypotheses db.reports
                wider s.settled);
      }

  pub record_step-IsSound :
      (owner : String) (input : StepInput) (lease now : ℕ) (db : Db)
      → IsSound criteria db
      → After (IsSound criteria) (record_step owner input lease now db)
  unfolding record_step accessible_evidence
  record_step-IsSound owner input lease now db s =
      After-fenced (IsSound criteria) owner db _ (λ runs own.
        let t =
          append_step-IsSound now input.kind input.iteration input.call_id input.evidence_ids db
            s in
        record { numbered = t.numbered; grounded = t.grounded; settled = t.settled })

  pub register-IsSound :
      (r : EvidenceRefRow) (db : Db)
      → IsSound criteria db
      → IsSound criteria (record db { evidence_refs = r ∷ db.evidence_refs })
  register-IsSound r db s = record {
    numbered = s.numbered;
    grounded = IsGrounded-grow _ _ db.hypotheses (register-grow r db) s.grounded;
    settled =
        IsSettled-grow criteria db.row.status db.row.lease_owner _ _ db.hypotheses db.reports
          (register-grow r db) s.settled;
  }

  pub apply_hypothesis_updates-IsSound :
      (decimal : ℕ → ℕ) (owner : String) (iteration : ℕ) (call_id : String)
      (updates : List HypothesisUpdate) (now : ℕ) (db : Db)
      → IsSound criteria db
      → After
          (λ out. IsSound criteria out.0)
          (apply_hypothesis_updates decimal owner iteration call_id updates now db)
  unfolding apply_hypothesis_updates accessible_evidence
  apply_hypothesis_updates-IsSound decimal owner iteration call_id updates now db s =
      After-fenced (λ out. IsSound criteria out.0) owner db _
        (λ runs own.
          append_step-IsSound now StepKind.hypothesis_update iteration (some call_id) [] _ (record {
            numbered = s.numbered;
            grounded =
                apply_updates-IsGrounded decimal now (accessible_evidence db) updates _ s.grounded;
            settled = rw runs (unfinished_reports db.row.status _ _ _ _ (rw runs refl) s.settled);
          }))

  pub move_incident-IsSound :
      (stored : IncidentRow) (now : ℕ) (to_status : IncidentStatus) (reason : Change) (db : Db)
      → IsSound criteria db
      → After (IsSound criteria) (move_incident stored now to_status reason db)
  unfolding move_incident accessible_evidence
  move_incident-IsSound stored now to_status reason db s =
      After-if (IsSound criteria) (db.incident.status == IncidentStatus.investigating) _ _
        (λ under_way.
          elim (Option-cases (transition_incident_status stored db.incident to_status now)) [
            | inl lost ↦ rw (lost, After) tt
            | inr (incident, moved) ↦
                rw (moved, After)
                  (record { numbered = s.numbered; grounded = s.grounded; settled = s.settled })
          ])
        (λ left. s)

  pub escalate-IsSound :
      (stored : IncidentRow) (owner : String) (iteration : ℕ) (ending : Ending)
      (reason_code : String) (call_id : Option String) (now : ℕ) (db : Db)
      → IsSound criteria db
      → After (IsSound criteria) (escalate stored owner iteration ending reason_code call_id now db)
  unfolding escalate accessible_evidence
  escalate-IsSound stored owner iteration ending reason_code call_id now db s =
      After-fenced (IsSound criteria) owner db _ (λ runs own.
        After-bind (IsSound criteria) (IsSound criteria) _ _
          (λ moved t. record { numbered = t.numbered; grounded = t.grounded; settled = t.settled })
          (move_incident-IsSound stored now _ _ _ (
            append_step-IsSound now StepKind.outcome iteration call_id [] _ (record {
              numbered = s.numbered;
              grounded = s.grounded;
              settled =
                  ended ending (unfinished_reports db.row.status _ _ _ _ (rw runs refl) s.settled);
            }))))
    where
      ended :
          (e : Ending)
          → db.reports ≡ []
          → IsSettled criteria
              (ending_status e)
              none
              (accessible_evidence db)
              db.hypotheses
              db.reports
      ended inconclusive none_yet = (refl, none_yet)
      ended technical_failure none_yet = (refl, none_yet)
